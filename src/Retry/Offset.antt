-- ===== src/Retry/Offset.antt =====
-- Which bytes a range of packets of a request is.
use dtld_rdma_driver.Base.{ℕ, ◌+◌, ◌-◌, ◌*◌, ◌/◌, ◌%◌, ◌^◌, ◌<◌, ◌≡◌, add64, sub64, u32, max, arith}
use dtld_rdma_driver.Types.{Pmtu, mtu256, mtu512, mtu1024, mtu2048, mtu4096, pmtu_bytes}
use dtld_rdma_driver.Utils.{get_first_packet_max_length, calculate_packet_cnt}
use dtld_rdma_driver.Device.Work.{ToCardWorkRbDescWrite}
use dtld_rdma_driver.Retry.{psn_addr_offset, cut_to_range}

-- The offset of a packet of a request is where its block of `pmtu` bytes begins, or 0 for the first,
-- for a request that stays so far below the end of the address space that no sum wraps around.
pub psn_addr_offset_lem :
    (base n : ℕ) (p : Pmtu)
    → base + (n + 1) * 4096 < 2 ^ 64
    → base + psn_addr_offset base p n ≡ max base ((base / pmtu_bytes p + n) * pmtu_bytes p)
unfolding psn_addr_offset get_first_packet_max_length
psn_addr_offset_lem base n mtu256 h = ground arith
psn_addr_offset_lem base n mtu512 h = ground arith
psn_addr_offset_lem base n mtu1024 h = ground arith
psn_addr_offset_lem base n mtu2048 h = ground arith
psn_addr_offset_lem base n mtu4096 h = ground arith

range-packets :
    (la ra from to : ℕ) (p : Pmtu)
    → from < to
    → to < 2 ^ 19
    → la + (to + 1) * 4096 < 2 ^ 64
    → ra + (to + 1) * 4096 < 2 ^ 64
    → ra % pmtu_bytes p ≡ la % pmtu_bytes p
    → calculate_packet_cnt p
        (add64 ra (psn_addr_offset la p from))
        (u32 (sub64 (psn_addr_offset la p to) (psn_addr_offset la p from)))
      ≡ to - from
unfolding calculate_packet_cnt
range-packets la ra from to mtu256 h small room room' e = omega (
  arith,
  psn_addr_offset_lem la from mtu256 (omega (arith, h, room)),
  psn_addr_offset_lem la to mtu256 room,
)
range-packets la ra from to mtu512 h small room room' e = omega (
  arith,
  psn_addr_offset_lem la from mtu512 (omega (arith, h, room)),
  psn_addr_offset_lem la to mtu512 room,
)
range-packets la ra from to mtu1024 h small room room' e = omega (
  arith,
  psn_addr_offset_lem la from mtu1024 (omega (arith, h, room)),
  psn_addr_offset_lem la to mtu1024 room,
)
range-packets la ra from to mtu2048 h small room room' e = omega (
  arith,
  psn_addr_offset_lem la from mtu2048 (omega (arith, h, room)),
  psn_addr_offset_lem la to mtu2048 room,
)
range-packets la ra from to mtu4096 h small room room' e = omega (
  arith,
  psn_addr_offset_lem la from mtu4096 (omega (arith, h, room)),
  psn_addr_offset_lem la to mtu4096 room,
)

-- The part of a request for the packets from one number to a later one is sent in as many packets
-- as there are from the first up to the later one, which is itself left out, if the two addresses
-- of the request stand alike in their blocks, neither comes near the end of the address space, and
-- the later number is below 2 ^ 19.
pub cut_to_range-packets :
    (from to max_pkt : ℕ) (d : ToCardWorkRbDescWrite)
    → from < to
    → to < 2 ^ 19
    → d.sge0.addr + (to + 1) * 4096 < 2 ^ 64
    → d.common.raddr + (to + 1) * 4096 < 2 ^ 64
    → d.common.raddr % pmtu_bytes d.common.pmtu ≡ d.sge0.addr % pmtu_bytes d.common.pmtu
    → let e = cut_to_range from to max_pkt d in
      calculate_packet_cnt e.common.pmtu e.common.raddr e.common.total_len ≡ to - from
unfolding cut_to_range
cut_to_range-packets from to max_pkt d h small room room' e =
    range-packets d.sge0.addr d.common.raddr from to d.common.pmtu h small room room' e
