-- ===== src/Types/Psn/Tests.antt =====
-- Runs of the 24-bit arithmetic, and its theorems at concrete numbers.
use dtld_rdma_driver.Base.{ℕ, ◌+◌, ◌*◌, ◌^◌, ◌%◌, ◌≡◌, ◌↔◌, ◌⊎◌, ◌||◌, ◌&&◌, refl, true, arith}
use dtld_rdma_driver.Types.Psn.{
  into_be, from_be, wrapping_add, wrapping_sub, wrapping_abs, larger_in_psn,
}
use dtld_rdma_driver.Types.Psn.Order.{wrapping_add-wrapping_sub, larger_in_psn_total}
use dtld_rdma_driver.Types.Psn.Bytes.{from_be-into_be}

add_wraps : wrapping_add 0xff_ffff 2 ≡ 1
unfolding wrapping_add
add_wraps = refl

abs_of_smaller : wrapping_abs 1 2 ≡ 0xff_ffff
unfolding wrapping_abs
abs_of_smaller = refl

wrapping_add-wrapping_sub_example :
    (wrapping_sub (wrapping_add 0xff_fff0 100) 0xff_fff0 ≡ 100 % 2 ^ 24)
    × (wrapping_add 0xff_fff0 (wrapping_sub 5 0xff_fff0) ≡ 5)
wrapping_add-wrapping_sub_example =
    wrapping_add-wrapping_sub 0xff_fff0 5 100 (omega arith) (omega arith)

larger_in_psn_total_example :
    ((larger_in_psn 5 0xff_fff0 || larger_in_psn 0xff_fff0 5) ≡ true)
    × (((larger_in_psn 5 0xff_fff0 && larger_in_psn 0xff_fff0 5) ≡ true)
        ↔ ((◌≡◌ {A = ℕ} 5 0xff_fff0) ⊎ (wrapping_sub 5 0xff_fff0 ≡ 2 ^ 23)))
larger_in_psn_total_example = larger_in_psn_total 5 0xff_fff0 (omega arith) (omega arith)

from_be-into_be_example : from_be (into_be 0x12_3456 + 2 ^ 24 * 7) ≡ 0x12_3456
from_be-into_be_example = from_be-into_be 0x12_3456 7 (omega arith)
