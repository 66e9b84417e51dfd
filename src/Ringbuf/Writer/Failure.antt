-- ===== src/Ringbuf/Writer/Failure.antt =====
-- What a failed write-back leaves behind.
use native.Mathlib.Nat.{mod-add-mod, mod-lt, mod-eq_of_lt, one-le-pow}
use dtld_rdma_driver.Base.{ℕ, ◌+◌, ◌*◌, ◌%◌, ◌^◌, ◌≤◌, ◌≡◌, sym, ap, ◌∙◌, ok, err, arith}
use dtld_rdma_driver.Device.{DeviceError}
use dtld_rdma_driver.Ringbuf.Writer.{Writer, next_head_idx, flush, drop}
use dtld_rdma_driver.Ringbuf.Writer.Invariant.{
  IsValid, next_head_idx_lem, next_head_idx_sum, next_head_idx-lt,
}

-- A write-back that the card refuses moves the head but keeps the count of pending slots, so the
-- next write-back, which `drop` makes at the latest, counts them twice: it publishes a head that is
-- `2 * written_cnt` slots on, past slots that were never written.
pub flush-drop_double :
    (k : ℕ)
    → 2 ^ k ≤ 2 ^ 31
    → (w : Writer) (e : DeviceError) → IsValid (2 ^ k) w
    → let (_, _, w') = flush (2 ^ k) (err e) w in
      let (published, w'') = drop (2 ^ k) (ok tt) w' in
      (published ≡ (w.head + 2 * w.written_cnt) % (2 * 2 ^ k)) × (w''.head ≡ published)
unfolding flush drop
flush-drop_double k small w e v = (
  mod-eq_of_lt (
        rw again
          (omega (arith, mod-lt (w.head + 2 * w.written_cnt) {m = 2 * 2 ^ k}, one-le-pow k 2)))
      ∙ again,
  sym (
      mod-eq_of_lt (
        rw again
          (omega (arith, mod-lt (w.head + 2 * w.written_cnt) {m = 2 * 2 ^ k}, one-le-pow k 2)))),
)
  where
    idx : ℕ
    idx = next_head_idx (2 ^ k) w

    again :
        next_head_idx (2 ^ k) (record w { head = idx }) ≡ (w.head + 2 * w.written_cnt) % (2 * 2 ^ k)
    again =
        next_head_idx_sum k small (record w { head = idx })
          (omega (arith, next_head_idx-lt k small v))
        ∙ ap (λ (t : ℕ). (t + w.written_cnt) % (2 * 2 ^ k)) (next_head_idx_lem k small v)
        ∙ mod-add-mod (w.head + w.written_cnt) (2 * 2 ^ k) w.written_cnt
        ∙ ap (λ (t : ℕ). t % (2 * 2 ^ k)) (omega arith)
