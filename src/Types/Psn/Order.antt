-- ===== src/Types/Psn/Order.antt =====
-- The circular arithmetic and order of packet sequence numbers.
use dtld_rdma_driver.Base.{ℕ, ◌+◌, ◌-◌, ◌%◌, ◌^◌, ◌<◌, ◌≡◌, ◌↔◌, ◌⊎◌, true, ◌||◌, ◌&&◌, arith, leb}
use dtld_rdma_driver.Types.Psn.{IsPsn, wrapping_add, wrapping_sub, wrapping_abs, larger_in_psn}

pub wrapping_add-IsPsn : (a d : ℕ) → IsPsn (wrapping_add a d)
unfolding wrapping_add
wrapping_add-IsPsn a d = omega arith

-- The sum is the sum modulo 2 ^ 24: the wrap of the 32-bit addition before it is not seen.
pub wrapping_add_lem : (a d : ℕ) → wrapping_add a d ≡ (a + d) % 2 ^ 24
unfolding wrapping_add
wrapping_add_lem a d = omega arith

pub wrapping_sub_lem : (a b : ℕ) → IsPsn a → wrapping_sub a b ≡ (a + 2 ^ 24 - b % 2 ^ 24) % 2 ^ 24
unfolding wrapping_sub
wrapping_sub_lem a b ha = ground arith

pub wrapping_sub-IsPsn : (a b : ℕ) → IsPsn a → IsPsn (wrapping_sub a b)
wrapping_sub-IsPsn a b ha = omega (arith, wrapping_sub_lem a b ha)

-- On 24-bit numbers `wrapping_add` and `wrapping_sub` undo one another: the distance from `a` to
-- `a + d` is `d` modulo 2 ^ 24, and adding the distance from `a` to `b` to `a` gives `b`.
pub wrapping_add-wrapping_sub :
    (a b d : ℕ)
    → IsPsn a
    → IsPsn b
    → (wrapping_sub (wrapping_add a d) a ≡ d % 2 ^ 24) × (wrapping_add a (wrapping_sub b a) ≡ b)
wrapping_add-wrapping_sub a b d ha hb = (
  omega
      (arith, wrapping_add_lem a d, wrapping_sub_lem (wrapping_add a d) a (wrapping_add-IsPsn a d)),
  omega (arith, wrapping_add_lem a (wrapping_sub b a), wrapping_sub_lem b a hb),
)

-- `wrapping_abs` is no absolute difference: on 24-bit numbers it is `wrapping_sub`, the distance
-- going up from the second number to the first.
pub wrapping_abs-eq-wrapping_sub :
    (a b : ℕ) → IsPsn a → IsPsn b → wrapping_abs a b ≡ wrapping_sub a b
unfolding wrapping_abs wrapping_sub
wrapping_abs-eq-wrapping_sub a b ha hb = ground arith

-- Of two 24-bit numbers one at least is the larger in the circular order, and each is larger than
-- the other exactly when they are equal or half the circle apart.
pub larger_in_psn_total :
    (a b : ℕ)
    → IsPsn a
    → IsPsn b
    → ((larger_in_psn a b || larger_in_psn b a) ≡ true)
      × (((larger_in_psn a b && larger_in_psn b a) ≡ true)
          ↔ ((a ≡ b) ⊎ (wrapping_sub a b ≡ 2 ^ 23)))
unfolding larger_in_psn
larger_in_psn_total a b ha hb = ground arith

-- A number that is up to 2 ^ 23 ahead of another is the larger, also past the wrap.
pub larger_in_psn-wrapping_add :
    (a d : ℕ) → IsPsn a → d < 2 ^ 24 → (larger_in_psn (wrapping_add a d) a ≡ leb d (2 ^ 23))
unfolding larger_in_psn wrapping_add
larger_in_psn-wrapping_add a d ha hd = ground arith
