-- ===== src/Ringbuf/Writer/Waiting.antt =====
-- The waiting loop of the writer comes to an end where there is a timeout.
use native.Mathlib.Decide.{dec_lt}
use dtld_rdma_driver.Base.{
  ℕ, ◌+◌, ◌<◌, ◌≡◌, ◌≢◌, refl, sym, ap, ◌⊎◌, inl, inr, ◌∙◌, List, [], ◌∷◌, ◌++◌, Result, ok, err,
  Outcome, done, failed, waiting, Option, true, false, arith, Bool-cases,
}
use dtld_rdma_driver.Device.{DeviceError, timeout}
use dtld_rdma_driver.Ringbuf.Writer.{
  Poll, Writer, would_it_full, wait_tail, limit_in_millis, next_head_idx, advance_head, give,
  wait_for_room, next_timeout,
}

module _ (depth idx limit : ℕ) where
  -- A poll that lets the loop go on: the card answered, the ring is still full, and the time is not
  -- up.
  pub record GoesOn (p : Poll) : Type 0 where
    pub tail : ℕ
    pub answered : p.reply ≡ ok tail
    pub full : would_it_full depth idx tail ≡ true
    pub in_time : (limit ≡ 0) ⊎ (p.elapsed < limit + 1)

  goes_on :
      (p : Poll) (ps : List Poll)
      → GoesOn p
      → wait_tail depth idx limit (p ∷ ps) ≡ wait_tail depth idx limit ps
  unfolding wait_tail
  goes_on p ps g = ground (arith, g.answered, g.full, g.in_time)

  -- A poll that ends the loop, with its outcome.
  pub data Ends (p : Poll) (o : Outcome ℕ DeviceError) : Type 0 where
    room : (t : ℕ) → p.reply ≡ ok t → would_it_full depth idx t ≡ false → o ≡ done t → Ends p o
    broken : (e : DeviceError) → p.reply ≡ err e → o ≡ failed e → Ends p o
    late :
        (t : ℕ)
        → p.reply ≡ ok t
        → would_it_full depth idx t ≡ true
        → 0 < limit
        → limit < p.elapsed
        → o ≡ failed timeout
        → Ends p o

  Ends-now :
      (p : Poll) (ps : List Poll) {o : Outcome ℕ DeviceError}
      → Ends p o
      → wait_tail depth idx limit (p ∷ ps) ≡ o
  unfolding wait_tail
  Ends-now p ps (room t r f e) = ground arith
  Ends-now p ps (broken x r e) = ground arith
  Ends-now p ps (late t r f l over e) = ground arith

  reply-cases :
      (p : Poll) (r : Result ℕ DeviceError)
      → p.reply ≡ r
      → GoesOn p ⊎ ((o : Outcome ℕ DeviceError) × Ends p o)
  reply-cases p (err e) q = inr (failed e, broken e q refl)
  reply-cases p (ok t) q = elim (Bool-cases (would_it_full depth idx t)) [
    | inr f ↦ inr (done t, room t q f refl)
    | inl f ↦ elim (dec_lt limit p.elapsed) [
      | no in_time ↦ inl (record { tail = t; answered = q; full = f; in_time = inr (omega arith) })
      | yes over ↦ elim (dec_lt 0 limit) [
        | yes l ↦ inr (failed timeout, late t q f l over refl)
        | no l ↦ inl (record { tail = t; answered = q; full = f; in_time = inl (omega arith) })
      ]
    ]
  ]

  -- Every poll lets the loop go on or ends it.
  GoesOn-or-Ends : (p : Poll) → GoesOn p ⊎ ((o : Outcome ℕ DeviceError) × Ends p o)
  GoesOn-or-Ends p = reply-cases p p.reply refl

  Ends-returns : {p : Poll} {o : Outcome ℕ DeviceError} → Ends p o → o ≢ waiting
  Ends-returns (room t r f e) = λ h. cc
  Ends-returns (broken x r e) = λ h. cc
  Ends-returns (late t r f l over e) = λ h. cc

  -- The loop looks at no poll behind one that is late, and has ended with it.
  wait_tail-returns :
      (before after : List Poll) (p : Poll)
      → 0 < limit
      → limit < p.elapsed
      → (wait_tail depth idx limit (before ++ p ∷ after)
          ≡ wait_tail depth idx limit (before ++ p ∷ []))
        × (wait_tail depth idx limit (before ++ p ∷ []) ≢ waiting)
  wait_tail-returns [] after p timed over = elim (GoesOn-or-Ends p) [
    | inl g ↦ absurd (omega (arith, g.in_time))
    | inr (o, e) ↦ (
      Ends-now p after e ∙ sym (Ends-now p [] e),
      λ w. Ends-returns e (sym (Ends-now p [] e) ∙ w),
    )
  ]
  wait_tail-returns (q ∷ before) after p timed over = elim (GoesOn-or-Ends q) [
    | inl g ↦
        let (same, ended) = wait_tail-returns before after p timed over in
        (
          goes_on q (before ++ p ∷ after) g ∙ same ∙ sym (goes_on q (before ++ p ∷ []) g),
          λ w. ended (sym (goes_on q (before ++ p ∷ []) g) ∙ w),
        )
    | inr (o, e) ↦ (
      Ends-now q (before ++ p ∷ after) e ∙ sym (Ends-now q (before ++ p ∷ []) e),
      λ w. Ends-returns e (sym (Ends-now q (before ++ p ∷ []) e) ∙ w),
    )
  ]

module _ (depth elem_size : ℕ) where
  give-returns :
      (idx value : ℕ) (w : Writer) (o : Outcome ℕ DeviceError)
      → o ≢ waiting
      → (give depth elem_size idx value w o).0 ≢ waiting
  unfolding give
  give-returns idx value w (done t) h = λ e. cc
  give-returns idx value w (failed x) h = λ e. cc
  give-returns idx value w waiting h = λ e. h refl

  wait_for_room-returns :
      (limit idx : ℕ) (before after : List Poll) (p : Poll)
      (written : Result (Unit {0}) DeviceError × ℕ × Writer)
      → 0 < limit
      → limit < p.elapsed
      → let ended = wait_for_room depth elem_size limit idx (before ++ p ∷ []) written in
        (wait_for_room depth elem_size limit idx (before ++ p ∷ after) written ≡ ended)
        × (ended.0 ≢ waiting)
  unfolding wait_for_room
  wait_for_room-returns limit idx before after p (ok _, value, w) timed over =
      let (same, ended) = wait_tail-returns depth idx limit before after p timed over in
      (ap (give depth elem_size idx value w) same, give-returns idx value w _ ended)
  wait_for_room-returns limit idx before after p (err e, value, w) timed over = (refl, λ h. cc)

  -- With a timeout of at least a millisecond, `next_timeout` of the writer comes to an end, with a
  -- slot or an error, whatever the card answers: it has ended when it has seen one poll that is later
  -- than the timeout, and does not look at the card after that.
  pub next_timeout-returns :
      (limit : Option ℕ) (reply : Result (Unit {0}) DeviceError) (before after : List Poll)
      (p : Poll) (w : Writer)
      → 0 < limit_in_millis limit
      → limit_in_millis limit < p.elapsed
      → let ended = next_timeout depth elem_size limit reply (before ++ p ∷ []) w in
        (next_timeout depth elem_size limit reply (before ++ p ∷ after) w ≡ ended)
        × (ended.0 ≢ waiting)
  unfolding next_timeout
  next_timeout-returns limit reply before after p w timed over =
      elim (Bool-cases (would_it_full depth (next_head_idx depth w) w.tail)) [
        | inl full ↦ rw full (
            wait_for_room-returns (limit_in_millis limit) (next_head_idx depth w) before after p
              (advance_head depth reply w) timed over)
        | inr room_left ↦ rw room_left (refl, λ h. cc)
      ]
