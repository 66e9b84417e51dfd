-- ===== src/Ringbuf/Writer/Grant.antt =====
-- The writer gives out free slots only.
use native.Mathlib.Nat.{one-le-pow, mod-lt, mod-eq_of_lt, mul-div_left}
use dtld_rdma_driver.Base.{
  ℕ, suc, ◌+◌, ◌-◌, ◌*◌, ◌/◌, ◌%◌, ◌^◌, ◌≤◌, ◌<◌, ◌≡◌, refl, sym, ap, ◌∙◌, ◌≢◌, add64, arith,
}
use dtld_rdma_driver.Ringbuf.{Slice, get_descriptor_mut_helper}
use dtld_rdma_driver.Ringbuf.Index.{used, slot-eq, tail-add-used, slot-mod, window_slots_differ}
use dtld_rdma_driver.Ringbuf.Writer.Invariant.{IsValid, next_head_idx-lt, used-next_head_idx}
use dtld_rdma_driver.Ringbuf.Writer.{Writer, next_head_idx, descriptor_at}

-- The slot `s` that was given out last, seen from the writer after the call.
pub record Granted (depth elem_size : ℕ) (s : Slice) (w : Writer) : Type 0 where
  pub valid : IsValid depth w
  pub pending : 0 < w.written_cnt
  pub place :
      s.offset ≡ (w.tail + (used depth w.head w.tail + w.written_cnt - 1)) % depth * elem_size
  pub extent : s.size ≡ elem_size
  pub inside : s.offset + elem_size ≤ depth * elem_size
  pub free :
      (j : ℕ)
      → suc j < used depth w.head w.tail + w.written_cnt
      → (w.tail + j) % depth * elem_size ≢ s.offset

pub offsets_differ : (a b e : ℕ) → 0 < e → a ≢ b → a * e ≢ b * e
offsets_differ a b e h ne eq =
    ne (sym (mul-div_left a h) ∙ ap (λ (t : ℕ). t / e) eq ∙ mul-div_left b h)

module _ (k : ℕ) (small : 2 ^ k ≤ 2 ^ 31) (elem_size : ℕ) (pos : 0 < elem_size)
    (addressable : 2 ^ k * elem_size < 2 ^ 64) where
  pub descriptor_at-offset :
      (idx : ℕ) → (descriptor_at (2 ^ k) elem_size idx).offset ≡ idx % 2 ^ k * elem_size
  unfolding descriptor_at get_descriptor_mut_helper
  descriptor_at-offset idx =
      rw (slot-eq k small idx)
        (mod-eq_of_lt (grind (arith, mod-lt idx {m = 2 ^ k}, one-le-pow k 2)))

  descriptor_at-size : (idx : ℕ) → (descriptor_at (2 ^ k) elem_size idx).size ≡ elem_size
  unfolding descriptor_at get_descriptor_mut_helper
  descriptor_at-size idx = refl

  inside_slot : (idx : ℕ) → idx % 2 ^ k * elem_size + elem_size ≤ 2 ^ k * elem_size
  inside_slot idx = grind (arith, mod-lt idx {m = 2 ^ k}, one-le-pow k 2)

  -- The index of the next slot, from the tail.
  next_head_idx-from_tail :
      {w : Writer}
      → IsValid (2 ^ k) w
      → next_head_idx (2 ^ k) w % 2 ^ k
        ≡ (w.tail + (used (2 ^ k) w.head w.tail + w.written_cnt)) % 2 ^ k
  next_head_idx-from_tail {w} v = rw (
    ← tail-add-used (2 ^ k) (next_head_idx (2 ^ k) w) w.tail (next_head_idx-lt k small v) v.tail_in,
    slot-mod,
    used-next_head_idx k small v,
  )

  pub grant :
      {w : Writer}
      → IsValid (2 ^ k) w
      → used (2 ^ k) w.head w.tail + w.written_cnt < 2 ^ k
      → Granted
          (2 ^ k)
          elem_size
          (descriptor_at (2 ^ k) elem_size (next_head_idx (2 ^ k) w))
          (record w { written_cnt = add64 w.written_cnt 1 })
  grant {w} v room = record {
    valid = record { head_in = v.head_in; tail_in = v.tail_in; fits = omega (arith, one_more) };
    pending = omega (arith, one_more);
    place =
        descriptor_at-offset (next_head_idx (2 ^ k) w)
        ∙ ap (λ (t : ℕ). t * elem_size)
            (next_head_idx-from_tail v
              ∙ ap (λ (t : ℕ). (w.tail + t) % 2 ^ k) (omega (arith, one_more)));
    extent = descriptor_at-size (next_head_idx (2 ^ k) w);
    inside =
        rw (descriptor_at-offset (next_head_idx (2 ^ k) w)) (inside_slot (next_head_idx (2 ^ k) w));
    free = λ j h.
        rw (descriptor_at-offset (next_head_idx (2 ^ k) w), next_head_idx-from_tail v)
          (offsets_differ _ _ elem_size pos (
            window_slots_differ (2 ^ k) w.tail j (used (2 ^ k) w.head w.tail + w.written_cnt)
              (omega (arith, one_more)) room));
  }
    where
      one_more : add64 w.written_cnt 1 ≡ w.written_cnt + 1
      one_more = mod-eq_of_lt (omega arith)
