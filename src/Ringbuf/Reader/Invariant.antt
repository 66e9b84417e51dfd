-- ===== src/Ringbuf/Reader/Invariant.antt =====
-- The invariant of the reader, and what a write-back does to it, also one that fails.
use native.Mathlib.Nat.{one-le-pow, mod-lt, mod-eq_of_lt}
use dtld_rdma_driver.Base.{
  ℕ, ◌+◌, ◌*◌, ◌%◌, ◌^◌, ◌≤◌, ◌<◌, ◌≡◌, refl, ◌∙◌, List, All, ok, err, arith,
}
use dtld_rdma_driver.Device.{DeviceError}
use dtld_rdma_driver.Ringbuf.Index.{used, wrapping_add_helper_lem, used-retreat}
use dtld_rdma_driver.Ringbuf.Reader.{Reader, Poll, next_tail_idx, flush, drop}

-- The indices stay below twice the depth, and what was taken since the last write-back is part of
-- what the card has filled, which is no more than the ring has.
pub record IsValid (depth : ℕ) (r : Reader) : Type 0 where
  pub head_in : r.head < 2 * depth
  pub tail_in : r.tail < 2 * depth
  pub filled : r.read_cnt ≤ used depth r.head r.tail
  pub fits : used depth r.head r.tail ≤ depth

-- What the card is trusted with: its head is an index that only moves on, and at most once around.
abbrev pub HeadsFrom : ℕ → Reader → List Poll → Type 0
HeadsFrom depth r = All (λ p.
    (h : ℕ)
    → p.reply ≡ ok h
    → (h < 2 * depth)
      × (used depth r.head r.tail ≤ used depth h r.tail)
      × (used depth h r.tail ≤ depth))

-- The reader after a write-back that the card accepts.
abbrev pub written_back : ℕ → Reader → Reader
written_back depth r = record r { tail = next_tail_idx depth r; read_cnt = 0 }

module _ (k : ℕ) (small : 2 ^ k ≤ 2 ^ 31) where
  pub next_tail_idx_lem :
      {r : Reader}
      → IsValid (2 ^ k) r
      → next_tail_idx (2 ^ k) r ≡ (r.tail + r.read_cnt) % (2 * 2 ^ k)
  unfolding next_tail_idx
  next_tail_idx_lem {r} v = wrapping_add_helper_lem k small r.tail r.read_cnt (omega arith)

  pub next_tail_idx-lt : {r : Reader} → IsValid (2 ^ k) r → next_tail_idx (2 ^ k) r < 2 * 2 ^ k
  next_tail_idx-lt {r} v =
      rw (next_tail_idx_lem v) (mod-lt (r.tail + r.read_cnt) (omega (arith, one-le-pow k 2)))

  pub used-next_tail_idx :
      {r : Reader}
      → IsValid (2 ^ k) r
      → used (2 ^ k) r.head (next_tail_idx (2 ^ k) r) + r.read_cnt ≡ used (2 ^ k) r.head r.tail
  used-next_tail_idx {r} v =
      rw (next_tail_idx_lem v)
        (used-retreat (2 ^ k) r.head r.tail r.read_cnt v.head_in v.tail_in v.filled)

  pub written_back-IsValid :
      {r : Reader} → IsValid (2 ^ k) r → IsValid (2 ^ k) (written_back (2 ^ k) r)
  written_back-IsValid {r} v = record {
    head_in = v.head_in;
    tail_in = next_tail_idx-lt v;
    filled = omega arith;
    fits = omega (arith, used-next_tail_idx v);
  }

  -- A write-back publishes a tail that is `read_cnt` slots on. One that the card refuses leaves the
  -- reader as it was, so a later one publishes the same tail: nothing is counted twice.
  pub flush-drop_retry :
      {r : Reader} (e : DeviceError)
      → IsValid (2 ^ k) r
      → let (_, refused, r') = flush (2 ^ k) (err e) r in
        let (published, r'') = drop (2 ^ k) (ok tt) r' in
        (r' ≡ r)
        × (published ≡ refused)
        × (published ≡ (r.tail + r.read_cnt) % (2 * 2 ^ k))
        × (r'' ≡ written_back (2 ^ k) r)
        × IsValid (2 ^ k) r''
  unfolding flush drop
  flush-drop_retry {r} e v = (
    refl,
    refl,
    mod-eq_of_lt (omega (arith, next_tail_idx-lt v)) ∙ next_tail_idx_lem v,
    refl,
    written_back-IsValid v,
  )
