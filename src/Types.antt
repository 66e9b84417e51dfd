-- ===== src/Types.antt =====
-- rust_driver/src/types.rs: the enumerations of the user-facing types. The 24-bit numbers are in
-- the child `Psn`.
pub mod Psn
use dtld_rdma_driver.Base.{ℕ, ◌*◌, ◌^◌, ◌≤◌, ◌≡◌, refl, ◌⊎◌, inl, inr, arith}

-- `Pmtu`
pub data Pmtu : Type 0 where
  mtu256 mtu512 mtu1024 mtu2048 mtu4096 : Pmtu

-- `u32::from(&pmtu)` and `u64::from(&pmtu)`, which have the same table.
abbrev pub pmtu_bytes : Pmtu → ℕ
pmtu_bytes mtu256 = 256
pmtu_bytes mtu512 = 512
pmtu_bytes mtu1024 = 1024
pmtu_bytes mtu2048 = 2048
pmtu_bytes mtu4096 = 4096

-- `QpType`
pub data QpType : Type 0 where
  rc uc ud raw_packet xrc_send xrc_recv : QpType

-- `PAGE_SIZE`: 2 MB.
abbrev pub page_size : ℕ
page_size = 1024 * 1024 * 2
