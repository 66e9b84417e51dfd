-- ===== src/Ringbuf/Index.antt =====
-- The masks of a ring whose depth is a power of two, and what full and empty mean for its indices.
use native.Mathlib.Nat.{
  pow-suc, one-le-pow, mod-lt, mod-eq_of_lt, mod-eq-sub-mod, mod-add-mod, mod-mod_of_dvd,
  dvd-mul_left, div-eq_of_lt, div-eq_of_lt-le,
}
use native.Mathlib.Decide.{dec_lt}
use dtld_rdma_driver.Base.{
  ℕ, suc, ◌+◌, ◌-◌, ◌*◌, ◌/◌, ◌%◌, ◌^◌, ◌≤◌, ◌<◌, bit_and, ◌≡◌, sym, ap, ◌∙◌, ◌≢◌, ◌↔◌, true, arith,
  ◌⊎◌, inl, inr,
}
use dtld_rdma_driver.Base.Bits.{bit_and_mask, bit_and_bit}
use dtld_rdma_driver.Ringbuf.{
  gen_hardware_idx_mask, gen_hardware_idx_guard_mask, gen_memory_idx_mask, is_full_helper,
  is_empty_helper, wrapping_add_helper,
}

-- How many slots lie between the tail and the head, for indices below `2 * depth`.
abbrev pub used : ℕ → ℕ → ℕ → ℕ
used depth head tail = (head + 2 * depth - tail) % (2 * depth)

-- An index below twice the depth is in the first round or in the second.
pub round-cases :
    (d i : ℕ)
    → i < 2 * d
    → ((i / d ≡ 0) × (i < d) × (i % d ≡ i)) ⊎ ((i / d ≡ 1) × (d ≤ i) × (i % d ≡ i - d))
round-cases d i h = elim (dec_lt i d) [
  | yes p ↦ inl (div-eq_of_lt p, p, mod-eq_of_lt p)
  | no p ↦ inr (
    div-eq_of_lt-le d (omega arith) (omega arith),
    omega arith,
    rw (mod-eq-sub-mod {n = i} {m = d} (omega arith)) (mod-eq_of_lt (omega arith)),
  )
]

pub used-cases :
    (d h t : ℕ)
    → h < 2 * d
    → t < 2 * d
    → ((t ≤ h) × (used d h t ≡ h - t)) ⊎ ((h < t) × (used d h t ≡ h + 2 * d - t))
used-cases d h t hh ht = elim (dec_lt h t) [
  | yes p ↦ inr (p, mod-eq_of_lt (omega arith))
  | no p ↦ inl (
    omega arith,
    rw (mod-eq-sub-mod {n = h + 2 * d - t} {m = 2 * d} (omega arith))
        (mod-eq_of_lt {n = h + 2 * d - t - 2 * d} (omega arith) ∙ omega arith),
  )
]

-- `2 ^ k` slots, with room for the doubled index in a `u32`.
module _ (k : ℕ) (small : 2 ^ k ≤ 2 ^ 31) where
  pub hardware_mask-eq : gen_hardware_idx_mask (2 ^ k) ≡ 2 ^ suc k - 1
  unfolding gen_hardware_idx_mask
  hardware_mask-eq = omega (arith, one-le-pow k 2, pow-suc 2 k)

  pub memory_mask-eq : gen_memory_idx_mask (2 ^ k) ≡ 2 ^ k - 1
  unfolding gen_memory_idx_mask
  memory_mask-eq = omega (arith, one-le-pow k 2)

  -- Adding to an index is addition modulo twice the depth.
  pub wrapping_add_helper_lem :
      (i n : ℕ)
      → i + n < 2 ^ 64
      → wrapping_add_helper i n (gen_hardware_idx_mask (2 ^ k)) ≡ (i + n) % (2 * 2 ^ k)
  unfolding wrapping_add_helper
  wrapping_add_helper_lem i n h =
      rw (hardware_mask-eq, mod-eq_of_lt h, bit_and_mask (suc k) (i + n), pow-suc 2 k)
        (ap (λ (t : ℕ). (i + n) % t) (omega arith))

  -- The slot of an index.
  pub slot-eq : (i : ℕ) → bit_and i (gen_memory_idx_mask (2 ^ k)) ≡ i % 2 ^ k
  slot-eq i = rw memory_mask-eq (bit_and_mask k i)

  -- A ring is found full exactly when the head is `depth` slots ahead of the tail.
  pub is_full-used :
      (head tail : ℕ)
      → head < 2 * 2 ^ k
      → tail < 2 * 2 ^ k
      → (is_full_helper head tail
            (gen_memory_idx_mask (2 ^ k))
            (gen_hardware_idx_guard_mask (2 ^ k))
          ≡ true)
        ↔ (used (2 ^ k) head tail ≡ 2 ^ k)
  unfolding is_full_helper gen_hardware_idx_guard_mask
  is_full-used head tail hh ht = ground (
    arith,
    slot-eq head,
    slot-eq tail,
    bit_and_bit k head,
    bit_and_bit k tail,
    round-cases (2 ^ k) head hh,
    round-cases (2 ^ k) tail ht,
    used-cases (2 ^ k) head tail hh ht,
    one-le-pow k 2,
  )

-- A ring is found empty exactly when no slot lies between the tail and the head.
pub is_empty-used :
    (d head tail : ℕ)
    → head < 2 * d
    → tail < 2 * d
    → (is_empty_helper head tail ≡ true) ↔ (used d head tail ≡ 0)
unfolding is_empty_helper
is_empty-used d head tail hh ht = ground (arith, used-cases d head tail hh ht)

-- Moving the head on by `n` slots adds `n` to the slots in use, up to twice the depth.
pub used-advance :
    (d head tail n : ℕ)
    → head < 2 * d
    → tail < 2 * d
    → used d head tail + n < 2 * d
    → used d ((head + n) % (2 * d)) tail ≡ used d head tail + n
used-advance d head tail n hh ht h = elim (dec_lt (head + n) (2 * d)) [
  | yes p ↦
      rw (mod-eq_of_lt p)
        (ground (arith, used-cases d head tail hh ht, used-cases d (head + n) tail p ht))
  | no p ↦ rw (mod-eq-sub-mod {n = head + n} {m = 2 * d} (omega arith)) (
      rw
        (mod-eq_of_lt {n = head + n - 2 * d} {m = 2 * d}
          (ground (arith, used-cases d head tail hh ht)))
        (ground (arith, used-cases d head tail hh ht, used-cases d (head + n - 2 * d) tail)))
]

-- Two indices less than `depth` slots apart name different slots.
pub slots_differ : (d i n : ℕ) → 0 < n → n < d → (i + n) % (2 * d) % d ≢ i % d
slots_differ d i n h0 hn =
    rw (mod-mod_of_dvd d (i + n) (dvd-mul_left d 2), ← mod-add-mod i d n)
      (elim (dec_lt (i % d + n) d) [
        | yes p ↦ rw (mod-eq_of_lt p) (omega arith)
        | no p ↦ rw (mod-eq-sub-mod {n = i % d + n} {m = d} (omega arith)) (
            rw (mod-eq_of_lt {n = i % d + n - d} {m = d} (omega (arith, mod-lt i {m = d})))
              (omega (arith, mod-lt i {m = d})))
      ])

-- Going from the tail over the slots in use leads to the head.
pub tail-add-used :
    (d head tail : ℕ) → head < 2 * d → tail < 2 * d → (tail + used d head tail) % (2 * d) ≡ head
tail-add-used d head tail hh ht = elim (used-cases d head tail hh ht) [
  | inl (le, e) ↦
      rw e (rw (mod-eq_of_lt {n = tail + (head - tail)} {m = 2 * d} (omega arith)) (omega arith))
  | inr (lt, e) ↦ rw e (
      rw (mod-eq-sub-mod {n = tail + (head + 2 * d - tail)} {m = 2 * d} (omega arith)) (
        rw (mod-eq_of_lt {n = tail + (head + 2 * d - tail) - 2 * d} {m = 2 * d} (omega arith))
          (omega arith)))
]

-- The slot of an index that was reduced modulo twice the depth.
pub slot-mod : (d i : ℕ) → i % (2 * d) % d ≡ i % d
slot-mod d i = mod-mod_of_dvd d i (dvd-mul_left d 2)

-- Two slots of a window shorter than the ring differ.
pub window_slots_differ : (d t j n : ℕ) → j < n → n < d → (t + j) % d ≢ (t + n) % d
window_slots_differ d t j n hj hn e =
    slots_differ d (t + j) (n - j) (omega arith) (omega arith)
      (slot-mod d (t + j + (n - j)) ∙ ap (λ (x : ℕ). x % d) (omega arith) ∙ sym e)

-- Moving the tail on by `n` of the slots in use takes `n` off them.
pub used-retreat :
    (d head tail n : ℕ)
    → head < 2 * d
    → tail < 2 * d
    → n ≤ used d head tail
    → used d head ((tail + n) % (2 * d)) + n ≡ used d head tail
used-retreat d head tail n hh ht h = elim (dec_lt (tail + n) (2 * d)) [
  | yes p ↦
      rw (mod-eq_of_lt p)
        (ground (arith, used-cases d head tail hh ht, used-cases d head (tail + n) hh p))
  | no p ↦ rw (mod-eq-sub-mod {n = tail + n} {m = 2 * d} (omega arith)) (
      rw
        (mod-eq_of_lt {n = tail + n - 2 * d} {m = 2 * d}
          (ground (arith, used-cases d head tail hh ht)))
        (ground (arith, used-cases d head tail hh ht, used-cases d head (tail + n - 2 * d) hh)))
]
