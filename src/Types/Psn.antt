-- ===== src/Types/Psn.antt =====
-- rust_driver/src/types.rs: `ThreeBytesStruct`, the 24-bit number behind `Psn` and `Qpn`, and the
-- other numbers of fixed width. A value is its number; `IsPsn` says that it fits 24 bits, which
-- every value built by `new` does. Arithmetic on `u32` wraps, as in a release build.
pub mod Order
pub mod Bytes
mod Tests
use dtld_rdma_driver.Base.{
  ℕ, ◌+◌, ◌-◌, ◌*◌, ◌/◌, ◌%◌, ◌^◌, ◌≤◌, ◌<◌, bit_and, add32, u16, u32, Bool, leb, if◌then◌else◌,
  ◌≡◌,
}
use dtld_rdma_driver.Base.Bits.{bit_and_mask}

-- `WIDTH`, `MASK` and `BORDER`
abbrev pub width : ℕ
width = 24

abbrev pub mask : ℕ
mask = (2 ^ 32 - 1) / 2 ^ (32 - 24)

abbrev pub border : ℕ
border = 2 ^ 24

-- `PSN_MAX_WINDOW_SIZE`
abbrev pub max_window_size : ℕ
max_window_size = 2 ^ 23

abbrev pub IsPsn : ℕ → Type 0
IsPsn a = a < 2 ^ 24

-- `ThreeBytesStruct::new`
unfoldable pub new : ℕ → ℕ
new key = bit_and key mask

-- The bytes of a `u32`, lowest first, and back: `to_le_bytes` and `from_le_bytes`.
abbrev pub le_byte : ℕ → ℕ → ℕ
le_byte i x = x / 2 ^ (8 * i) % 256

abbrev pub from_le_bytes : ℕ → ℕ → ℕ → ℕ → ℕ
from_le_bytes b0 b1 b2 b3 = b0 + 2 ^ 8 * b1 + 2 ^ 16 * b2 + 2 ^ 24 * b3

unfoldable pub into_be : ℕ → ℕ
into_be a = from_le_bytes (le_byte 2 a) (le_byte 1 a) (le_byte 0 a) 0

unfoldable pub from_be : ℕ → ℕ
from_be val = new (from_le_bytes (le_byte 2 val) (le_byte 1 val) (le_byte 0 val) 0)

unfoldable pub wrapping_add : ℕ → ℕ → ℕ
wrapping_add a rhs = add32 a rhs % border

unfoldable pub wrapping_sub : ℕ → ℕ → ℕ
wrapping_sub a rhs = let r = rhs % border in if leb r a then a - r else border - r + a

unfoldable pub wrapping_abs : ℕ → ℕ → ℕ
wrapping_abs a rhs = if leb rhs a then a - rhs else a + border - rhs

unfoldable pub larger_in_psn : ℕ → ℕ → Bool
unfolding wrapping_sub
larger_in_psn a rhs = leb (wrapping_sub a rhs) max_window_size

pub new_lem : (key : ℕ) → new key ≡ key % 2 ^ 24
unfolding new
new_lem key = bit_and_mask 24 key
