-- ===== src/Device/Scheduler/RoundRobin/Valid.antt =====
-- What the queue of the round robin keeps: no list is empty, each holds descriptors of its queue
-- pair, and no queue pair has two lists.
use dtld_rdma_driver.Base.{
  ℕ, zero, suc, ◌≡◌, ◌≢◌, refl, sym, inl, inr, true, false, some, List, [], ◌∷◌, ◌++◌, ◌==◌, ==_iff,
  ==_false, Bool-cases, All, All-append,
}
use dtld_rdma_driver.Device.Scheduler.RoundRobin.{push, put_back, pop_loop}

module _ {ℓ} {A : Type ℓ} (owner : A → ℕ) where
  abbrev pub Owned : ℕ → List A → Type 0
  Owned q = All (λ d. owner d ≡ q)

  abbrev pub Lacks : ℕ → List (ℕ × List A) → Type 0
  Lacks q = All (λ e. e.0 ≢ q)

  abbrev pub IsFilled : List A → Type 0
  IsFilled [] = false ≡ true
  IsFilled (_ ∷ _) = Unit

  abbrev pub IsValid : List (ℕ × List A) → Type 0
  IsValid [] = Unit
  IsValid ((q, list) ∷ queue) = IsFilled list × Owned q list × Lacks q queue × IsValid queue

  append-IsFilled : (xs ys : List A) → IsFilled ys → IsFilled (xs ++ ys)
  append-IsFilled [] ys h = h
  append-IsFilled (_ ∷ _) ys h = tt

  push-Lacks :
      (q qpn : ℕ) (desc : List A) (queue : List (ℕ × List A))
      → qpn ≢ q
      → Lacks q queue
      → Lacks q (push qpn desc queue)
  unfolding push
  push-Lacks q qpn desc [] h l = (h, tt)
  push-Lacks q qpn desc ((q', list) ∷ queue) h (l, ls) = elim (Bool-cases (q' == qpn)) [
    | inl e ↦ rw e (l, ls)
    | inr e ↦ rw e (l, push-Lacks q qpn desc queue h ls)
  ]

  pub push-IsValid :
      (qpn : ℕ) (desc : List A) (queue : List (ℕ × List A))
      → IsFilled desc
      → Owned qpn desc
      → IsValid queue
      → IsValid (push qpn desc queue)
  unfolding push
  push-IsValid qpn desc [] f o v = (f, o, tt, tt)
  push-IsValid qpn desc ((q, list) ∷ queue) f o (g, p, l, v) = elim (Bool-cases (q == qpn)) [
    | inl e ↦ rw e (
      append-IsFilled list desc f,
      All-append (λ d. owner d ≡ q) list desc p (rw ((==_iff q qpn).0 e) o),
      l,
      v,
    )
    | inr e ↦ rw e (
      g,
      p,
      push-Lacks q qpn desc queue (λ s. ==_false q qpn e (sym s)) l,
      push-IsValid qpn desc queue f o v,
    )
  ]

  pub put_back-IsValid :
      (q : ℕ) (list : List A) (queue : List (ℕ × List A))
      → Owned q list
      → Lacks q queue
      → IsValid queue
      → IsValid (put_back q list queue)
  unfolding put_back
  put_back-IsValid q [] queue o l v = v
  put_back-IsValid q (d ∷ list) [] o l v = (tt, o, tt, tt)
  put_back-IsValid q (d ∷ list) ((q', list') ∷ queue) o (n, l) (f, p, m, v) = (
    f,
    p,
    All-append (λ e. e.0 ≢ q') queue ((q, d ∷ list) ∷ []) m ((λ e. n (sym e)), tt),
    put_back-IsValid q (d ∷ list) queue o l v,
  )

  -- The loop never finds an empty list.
  pub pop_loop-IsValid :
      (free : ℕ) (queue : List (ℕ × List A))
      → IsValid queue
      → (ds : List A) × (left : List (ℕ × List A)) × (pop_loop free queue ≡ some (ds, left))
        × IsValid left
  unfolding pop_loop
  pop_loop-IsValid zero queue v = ([], queue, refl, v)
  pop_loop-IsValid (suc free) [] v = ([], [], refl, v)
  pop_loop-IsValid (suc free) ((q, []) ∷ queue) (f, _, _, _) = absurd (cc)
  pop_loop-IsValid (suc free) ((q, d ∷ list) ∷ queue) (_, (o, os), l, v) =
      let (ds, left, e, v') =
        pop_loop-IsValid free (put_back q list queue) (put_back-IsValid q list queue os l v) in
      (d ∷ ds, left, rw e refl, v')
