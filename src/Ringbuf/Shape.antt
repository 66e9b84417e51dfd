-- ===== src/Ringbuf/Shape.antt =====
-- The shapes of ring that pass the tests of the constants `_IS_DEPTH_POWER_OF_2`,
-- `_IS_ELEM_SIZE_POWER_OF_2` and `_IS_RINGBUF_SIZE_VALID`.
use native.Mathlib.Nat.{pow-suc}
use dtld_rdma_driver.Base.{
  ℕ, zero, suc, ◌-◌, ◌*◌, ◌/◌, ◌%◌, ◌^◌, ◌≤◌, ◌<◌, ◌≡◌, ap, ◌∙◌, ◌⊎◌, inl, inr, bit_and, sub64,
  true, arith, ==_iff,
}
use dtld_rdma_driver.Base.Bits.{bit_and_digit, bit_and_self}
use dtld_rdma_driver.Ringbuf.{is_power_of_2, is_valid_shape}

-- The result is found within `n` halvings.
power_of_and : (n v : ℕ) → v ≤ n → 0 < v → bit_and v (v - 1) ≡ 0 → (k : ℕ) × (v ≡ 2 ^ k)
power_of_and zero v le pos e = absurd (omega arith)
power_of_and (suc n) v le pos e = elim (parity v) [
  | inl even ↦
      let (k, p) =
        power_of_and n (v / 2) (omega arith) (omega arith) (omega (arith, halved even)) in
      (suc k, omega (arith, pow-suc 2 k))
  | inr odd ↦ (0, omega (arith, bit_and_digit v (v - 1), bit_and_self (v / 2), same odd))
]
  where
    parity : (x : ℕ) → (x % 2 ≡ 0) ⊎ (x % 2 ≡ 1)
    parity x = omega arith

    half_pred : v % 2 ≡ 0 → v / 2 - 1 ≡ (v - 1) / 2
    half_pred even = omega arith

    halved : v % 2 ≡ 0 → bit_and (v / 2) (v / 2 - 1) ≡ 0
    halved even = omega (arith, bit_and_digit v (v - 1), ap (bit_and (v / 2)) (half_pred even))

    same : v % 2 ≡ 1 → bit_and (v / 2) ((v - 1) / 2) ≡ bit_and (v / 2) (v / 2)
    same odd = ap (bit_and (v / 2)) (omega arith)

-- A depth that is not 0 and passes the test is a power of two.
pub is_power_of_2_sound :
    (v : ℕ) → 0 < v → v < 2 ^ 64 → is_power_of_2 v ≡ true → (k : ℕ) × (v ≡ 2 ^ k)
unfolding is_power_of_2
is_power_of_2_sound v pos small e =
    power_of_and v v (omega arith) pos
      (ap (bit_and v) (omega arith) ∙ (==_iff (bit_and v (sub64 v 1)) 0).0 e)

factors_pos : (a b : ℕ) → 0 < a * b → (0 < a) × (0 < b)
factors_pos zero b h = absurd (omega arith)
factors_pos (suc a) zero h = absurd (omega arith)
factors_pos (suc a) (suc b) h = omega arith

-- A ring whose shape passes the three tests has a power of two of slots, each of a power of two
-- of bytes, and fills at least a page, if the page is not empty.
pub is_valid_shape_sound :
    (depth elem_size page_size : ℕ)
    → depth < 2 ^ 64
    → elem_size < 2 ^ 64
    → 0 < page_size
    → is_valid_shape depth elem_size page_size ≡ true
    → ((k : ℕ) × (depth ≡ 2 ^ k))
      × ((m : ℕ) × (elem_size ≡ 2 ^ m))
      × (page_size ≤ depth * elem_size)
unfolding is_valid_shape
is_valid_shape_sound depth elem_size page_size hd he hp e =
    let fits : page_size ≤ depth * elem_size = ground arith in
    let (dp, ep) = factors_pos depth elem_size (omega arith) in
    (
      is_power_of_2_sound depth dp hd (ground arith),
      is_power_of_2_sound elem_size ep he (ground arith),
      fits,
    )
