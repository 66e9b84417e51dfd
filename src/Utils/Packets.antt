-- ===== src/Utils/Packets.antt =====
-- How many packets a message needs, when packets end at multiples of the packet size.
use dtld_rdma_driver.Base.{ℕ, ◌+◌, ◌-◌, ◌/◌, ◌%◌, ◌≤◌, ◌<◌, ◌≡◌, arith}
use dtld_rdma_driver.Types.{Pmtu, mtu256, mtu512, mtu1024, mtu2048, mtu4096, pmtu_bytes}
use dtld_rdma_driver.Utils.{get_first_packet_max_length, calculate_packet_cnt}

pub pmtu_pos : (p : Pmtu) → (256 ≤ pmtu_bytes p) × (pmtu_bytes p ≤ 4096)
pmtu_pos mtu256 = omega arith
pmtu_pos mtu512 = omega arith
pmtu_pos mtu1024 = omega arith
pmtu_pos mtu2048 = omega arith
pmtu_pos mtu4096 = omega arith

-- The first packet is never empty and ends at the next multiple of the packet size.
pub first_packet_ends_aligned :
    (p : Pmtu) (va : ℕ)
    → (0 < get_first_packet_max_length va (pmtu_bytes p))
      × (get_first_packet_max_length va (pmtu_bytes p) ≤ pmtu_bytes p)
      × ((va + get_first_packet_max_length va (pmtu_bytes p)) % pmtu_bytes p ≡ 0)
unfolding get_first_packet_max_length
first_packet_ends_aligned mtu256 va = omega arith
first_packet_ends_aligned mtu512 va = omega arith
first_packet_ends_aligned mtu1024 va = omega arith
first_packet_ends_aligned mtu2048 va = omega arith
first_packet_ends_aligned mtu4096 va = omega arith

-- A message of at least one byte at `raddr` takes one packet for each block of `pmtu` bytes of the
-- address space that it touches.
pub calculate_packet_cnt-blocks :
    (p : Pmtu) (raddr len : ℕ)
    → 0 < len
    → calculate_packet_cnt p raddr len + raddr / pmtu_bytes p ≡ (raddr + len - 1) / pmtu_bytes p + 1
unfolding calculate_packet_cnt
calculate_packet_cnt-blocks mtu256 raddr len h = omega arith
calculate_packet_cnt-blocks mtu512 raddr len h = omega arith
calculate_packet_cnt-blocks mtu1024 raddr len h = omega arith
calculate_packet_cnt-blocks mtu2048 raddr len h = omega arith
calculate_packet_cnt-blocks mtu4096 raddr len h = omega arith

-- Cutting a message at a multiple of the packet size does not change the number of packets.
pub calculate_packet_cnt-cut :
    (p : Pmtu) (raddr m n : ℕ)
    → 0 < m
    → 0 < n
    → (raddr + m) % pmtu_bytes p ≡ 0
    → calculate_packet_cnt p raddr (m + n)
      ≡ calculate_packet_cnt p raddr m + calculate_packet_cnt p (raddr + m) n
unfolding calculate_packet_cnt
calculate_packet_cnt-cut mtu256 raddr m n hm hn h = omega arith
calculate_packet_cnt-cut mtu512 raddr m n hm hn h = omega arith
calculate_packet_cnt-cut mtu1024 raddr m n hm hn h = omega arith
calculate_packet_cnt-cut mtu2048 raddr m n hm hn h = omega arith
calculate_packet_cnt-cut mtu4096 raddr m n hm hn h = omega arith
