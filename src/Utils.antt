-- ===== src/Utils.antt =====
-- rust_driver/src/utils.rs: the arithmetic of packets and of aligned buffers. (The memory buffers
-- of that file, which call the allocator and the operating system, are not modelled.)
pub mod Packets
pub mod Align
mod Tests
use mathlib.Core.List.{foldl}
use dtld_rdma_driver.Base.{
  ℕ, ◌+◌, ◌-◌, ◌*◌, ◌/◌, ◌%◌, ◌^◌, min, List, add64, mul64, sub64, u32, div_ceil,
}
use dtld_rdma_driver.Types.{Pmtu, pmtu_bytes}

-- `get_first_packet_max_length`. The offset is below `pmtu`, so the cast to `u32` keeps it.
unfoldable pub get_first_packet_max_length : ℕ → ℕ → ℕ
get_first_packet_max_length va pmtu = let offset = u32 (va % pmtu) in pmtu - offset

-- `calculate_packet_cnt`
unfoldable pub calculate_packet_cnt : Pmtu → ℕ → ℕ → ℕ
unfolding get_first_packet_max_length
calculate_packet_cnt pmtu raddr total_len =
    let first_pkt_max_len = get_first_packet_max_length raddr (pmtu_bytes pmtu) in
    let first_pkt_len = min total_len first_pkt_max_len in
    1 + div_ceil (total_len - first_pkt_len) (pmtu_bytes pmtu)

-- `u8_slice_to_u64`: the shift drops what leaves the 64 bits.
unfoldable pub u8_slice_to_u64 : List ℕ → ℕ
u8_slice_to_u64 slice = foldl (λ a b. add64 (mul64 a (2 ^ 8)) b) 0 slice

-- `align_up::<PAGE>`
unfoldable pub align_up : ℕ → ℕ → ℕ
align_up page addr = mul64 (add64 addr (page - 1) / page) page
