-- ===== src/Ringbuf.antt =====
-- rust_driver/src/device/ringbuf.rs: the index arithmetic of the ring shared with the card.
-- An index counts slots modulo twice the depth; its low bits name the slot, its highest bit is the
-- guard that tells a full ring from an empty one. `usize` has 64 bits.
-- `Writer`, `Reader` and `Poller` model the three handles, `Channel` a host and a card that share
-- one ring.
pub mod Index
pub mod Shape
pub mod Writer
pub mod Reader
pub mod Poller
pub mod Channel
mod Tests
use dtld_rdma_driver.Base.{
  ℕ, ◌+◌, ◌-◌, ◌*◌, ◌/◌, ◌%◌, ◌^◌, ◌<◌, bit_and, add64, sub64, mul64, Bool, not, ◌&&◌, leb, ◌==◌,
  if◌then◌else◌, Option, none, some,
}

-- `_is_power_of_2`
unfoldable pub is_power_of_2 : ℕ → Bool
is_power_of_2 v = bit_and v (sub64 v 1) == 0

-- `gen_hardware_idx_mask`, `gen_hardware_idx_guard_mask` and `gen_memory_idx_mask`
unfoldable pub gen_hardware_idx_mask : ℕ → ℕ
gen_hardware_idx_mask depth = sub64 (mul64 depth 2) 1

unfoldable pub gen_hardware_idx_guard_mask : ℕ → ℕ
gen_hardware_idx_guard_mask depth = depth

unfoldable pub gen_memory_idx_mask : ℕ → ℕ
gen_memory_idx_mask depth = sub64 depth 1

unfoldable pub is_full_helper : ℕ → ℕ → ℕ → ℕ → Bool
is_full_helper head tail memory_idx_mask hardware_idx_guard_mask =
    let head_guard = bit_and head hardware_idx_guard_mask in
    let tail_guard = bit_and tail hardware_idx_guard_mask in
    let head_low = bit_and head memory_idx_mask in
    let tail_low = bit_and tail memory_idx_mask in
    not (head_guard == tail_guard) && (head_low == tail_low)

unfoldable pub is_empty_helper : ℕ → ℕ → Bool
is_empty_helper head tail = head == tail

unfoldable pub wrapping_add_helper : ℕ → ℕ → ℕ → ℕ
wrapping_add_helper current cnt hardware_idx_mask = bit_and (add64 current cnt) hardware_idx_mask

-- The slice that `get_descriptor_mut_helper` cuts from the buffer, by its offset and its length.
pub record Slice : Type 0 where
  pub offset : ℕ
  pub size : ℕ

unfoldable pub get_descriptor_mut_helper : ℕ → ℕ → ℕ → Slice
get_descriptor_mut_helper idx element_size idx_mask = record {
  offset = mul64 (bit_and idx idx_mask) element_size;
  size = element_size;
}

-- `Ringbuf`: the indices. The buffer is `length` bytes at `address`.
pub record Ringbuf : Type 0 where
  pub address : ℕ
  pub buf_len : ℕ
  pub head : ℕ
  pub tail : ℕ

-- The tests of the three constants `_IS_..`. Nothing in the program names these constants, so that
-- the compiler does not evaluate them: that they hold is what the callers of `new` see to. The product
-- is that of natural numbers.
unfoldable pub is_valid_shape : ℕ → ℕ → ℕ → Bool
unfolding is_power_of_2
is_valid_shape depth elem_size page_size =
    is_power_of_2 depth && is_power_of_2 elem_size && leb page_size (depth * elem_size)

-- `Ringbuf::new`; `none` is a failed assertion.
unfoldable pub new : ℕ → ℕ → ℕ → ℕ → ℕ → Option Ringbuf
new depth elem_size page_size address buf_len =
    if not (address % page_size == 0)
    then none
    else if not (buf_len % page_size == 0)
    then none
    else if not (leb (mul64 depth elem_size) buf_len)
    then none
    else some (record { address = address; buf_len = buf_len; head = 0; tail = 0 })
