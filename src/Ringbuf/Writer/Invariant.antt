-- ===== src/Ringbuf/Writer/Invariant.antt =====
-- The invariant of the writer, which a write-back keeps.
use native.Mathlib.Nat.{one-le-pow, mod-lt, mod-eq_of_lt}
use dtld_rdma_driver.Base.{
  ℕ, ◌+◌, ◌*◌, ◌%◌, ◌^◌, ◌≤◌, ◌<◌, ◌≡◌, refl, List, [], ◌∷◌, All, ok, done, false, arith,
}
use dtld_rdma_driver.Ringbuf.Index.{used, wrapping_add_helper_lem, is_full-used, used-advance}
use dtld_rdma_driver.Ringbuf.Writer.{
  Writer, Poll, would_it_full, next_head_idx, advance_head, wait_tail,
}

-- The indices stay below twice the depth, and the slots that the card has not taken back, with those
-- given out since the last write-back, are no more than the ring has.
pub record IsValid (depth : ℕ) (w : Writer) : Type 0 where
  pub head_in : w.head < 2 * depth
  pub tail_in : w.tail < 2 * depth
  pub fits : used depth w.head w.tail + w.written_cnt ≤ depth

-- What the card is trusted with: a tail that it reports is an index, and not ahead of the head.
abbrev pub TailsUpTo : ℕ → ℕ → List Poll → Type 0
TailsUpTo depth idx =
    All (λ p. (t : ℕ) → p.reply ≡ ok t → (t < 2 * depth) × (used depth idx t ≤ depth))

module _ (k : ℕ) (small : 2 ^ k ≤ 2 ^ 31) where
  pub next_head_idx_sum :
      (w : Writer)
      → w.head + w.written_cnt < 2 ^ 64
      → next_head_idx (2 ^ k) w ≡ (w.head + w.written_cnt) % (2 * 2 ^ k)
  unfolding next_head_idx
  next_head_idx_sum w h = wrapping_add_helper_lem k small w.head w.written_cnt h

  pub next_head_idx_lem :
      {w : Writer}
      → IsValid (2 ^ k) w
      → next_head_idx (2 ^ k) w ≡ (w.head + w.written_cnt) % (2 * 2 ^ k)
  next_head_idx_lem {w} v = next_head_idx_sum w (omega arith)

  pub next_head_idx-lt : {w : Writer} → IsValid (2 ^ k) w → next_head_idx (2 ^ k) w < 2 * 2 ^ k
  next_head_idx-lt {w} v =
      rw (next_head_idx_lem v) (mod-lt (w.head + w.written_cnt) (omega (arith, one-le-pow k 2)))

  pub used-next_head_idx :
      {w : Writer}
      → IsValid (2 ^ k) w
      → used (2 ^ k) (next_head_idx (2 ^ k) w) w.tail ≡ used (2 ^ k) w.head w.tail + w.written_cnt
  used-next_head_idx {w} v = rw (next_head_idx_lem v) (
      used-advance (2 ^ k) w.head w.tail w.written_cnt v.head_in v.tail_in
        (omega (arith, one-le-pow k 2)))

  -- A write-back keeps the writer valid, and nothing is pending after it.
  pub advance_head-IsValid :
      {w : Writer}
      → IsValid (2 ^ k) w
      → let (r, value, w') = advance_head (2 ^ k) (ok tt) w in
        (r ≡ ok tt)
        × (value ≡ next_head_idx (2 ^ k) w)
        × IsValid (2 ^ k) w'
        × (w'.written_cnt ≡ 0)
        × (w'.head ≡ next_head_idx (2 ^ k) w)
        × (w'.tail ≡ w.tail)
  unfolding advance_head
  advance_head-IsValid {w} v = (
    refl,
    mod-eq_of_lt (omega (arith, next_head_idx-lt v)),
    record {
      head_in = next_head_idx-lt v;
      tail_in = v.tail_in;
      fits = omega (arith, used-next_head_idx v);
    },
    refl,
    refl,
    refl,
  )

  -- A tail that was polled ends the waiting loop only if it leaves room.
  pub would_it_full-room :
      (idx t : ℕ)
      → idx < 2 * 2 ^ k
      → t < 2 * 2 ^ k
      → used (2 ^ k) idx t ≤ 2 ^ k
      → would_it_full (2 ^ k) idx t ≡ false
      → used (2 ^ k) idx t < 2 ^ k
  unfolding would_it_full
  would_it_full-room idx t hi ht h e = ground (arith, is_full-used k small idx t hi ht)

  pub wait_tail-done :
      (idx limit : ℕ) (polls : List Poll) (t : ℕ)
      → idx < 2 * 2 ^ k
      → TailsUpTo (2 ^ k) idx polls
      → wait_tail (2 ^ k) idx limit polls ≡ done t
      → (t < 2 * 2 ^ k) × (used (2 ^ k) idx t < 2 ^ k)
  unfolding wait_tail
  wait_tail-done idx limit [] t hi h e = absurd (cc)
  wait_tail-done idx limit (p ∷ ps) t hi h e =
      ground (arith, wait_tail-done idx limit ps t hi h.1, h.0 t, would_it_full-room idx t hi)
