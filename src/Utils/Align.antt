-- ===== src/Utils/Align.antt =====
-- Rounding a size up to a multiple of the page size, and numbers from bytes.
use dtld_rdma_driver.Base.{ℕ, ◌+◌, ◌-◌, ◌*◌, ◌/◌, ◌%◌, ◌^◌, ◌≤◌, ◌<◌, ◌≡◌, arith}
use native.Mathlib.Nat.{mod-lt, div-add-mod', mod-eq_of_lt, mul-mod_left}
use dtld_rdma_driver.Utils.{align_up}

-- Where rounding up does not leave the 64 bits, the result is the least multiple of the page size
-- that is not below the address.
pub align_up-least :
    (page addr : ℕ)
    → 0 < page
    → addr + page ≤ 2 ^ 64
    → (align_up page addr % page ≡ 0)
      × (addr ≤ align_up page addr)
      × (align_up page addr < addr + page)
unfolding align_up
align_up-least page addr hp h = ground (
  arith,
  mod-lt (addr + (page - 1)) hp,
  div-add-mod' (addr + (page - 1)) page,
  mod-eq_of_lt {n = addr + (page - 1)} {m = 2 ^ 64},
  mod-eq_of_lt {n = (addr + (page - 1)) / page * page} {m = 2 ^ 64},
  mul-mod_left ((addr + (page - 1)) / page) page,
)
