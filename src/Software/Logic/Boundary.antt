-- ===== src/Software/Logic/Boundary.antt =====
-- The packets of a message end at multiples of the packet size: get_first_packet_max_length and
-- calculate_packet_cnt of rust_driver/src/utils.rs at one packet and at what follows it.
use dtld_rdma_driver.Base.{ℕ, ◌+◌, ◌-◌, ◌%◌, ◌<◌, ◌≤◌, ◌≡◌, ap, subst, arith}
use dtld_rdma_driver.Types.{Pmtu, pmtu_bytes, mtu256, mtu512, mtu1024, mtu2048, mtu4096}
use dtld_rdma_driver.Types.Psn.{wrapping_add}
use dtld_rdma_driver.Types.Psn.Order.{wrapping_add_lem}
use dtld_rdma_driver.Utils.{get_first_packet_max_length, calculate_packet_cnt}
use dtld_rdma_driver.Utils.Packets.{first_packet_ends_aligned, calculate_packet_cnt-cut}

-- The bytes from an address to the next multiple of the packet size.
abbrev pub to_boundary : Pmtu → ℕ → ℕ
to_boundary p va = pmtu_bytes p - va % pmtu_bytes p

pub to_boundary_lem :
    (p : Pmtu) (va : ℕ) → get_first_packet_max_length va (pmtu_bytes p) ≡ to_boundary p va
unfolding get_first_packet_max_length
to_boundary_lem mtu256 va = omega arith
to_boundary_lem mtu512 va = omega arith
to_boundary_lem mtu1024 va = omega arith
to_boundary_lem mtu2048 va = omega arith
to_boundary_lem mtu4096 va = omega arith

pub ends_aligned :
    (p : Pmtu) (va : ℕ)
    → (0 < to_boundary p va)
      × (to_boundary p va ≤ pmtu_bytes p)
      × ((va + to_boundary p va) % pmtu_bytes p ≡ 0)
ends_aligned p va =
    subst (λ (l : ℕ). (0 < l) × (l ≤ pmtu_bytes p) × ((va + l) % pmtu_bytes p ≡ 0))
      (to_boundary_lem p va) (first_packet_ends_aligned p va)

pub one_full :
    (p : Pmtu) (va n : ℕ)
    → 0 < n
    → n ≤ to_boundary p va
    → (va + n) % pmtu_bytes p ≡ 0
    → n ≡ to_boundary p va
one_full mtu256 va n pos le e = omega arith
one_full mtu512 va n pos le e = omega arith
one_full mtu1024 va n pos le e = omega arith
one_full mtu2048 va n pos le e = omega arith
one_full mtu4096 va n pos le e = omega arith

pub one_packet :
    (p : Pmtu) (va n : ℕ) → 0 < n → n ≤ to_boundary p va → calculate_packet_cnt p va n ≡ 1
unfolding get_first_packet_max_length calculate_packet_cnt
one_packet mtu256 va n pos le = omega arith
one_packet mtu512 va n pos le = omega arith
one_packet mtu1024 va n pos le = omega arith
one_packet mtu2048 va n pos le = omega arith
one_packet mtu4096 va n pos le = omega arith

-- The number after a packet and those of the rest is the number after all.
pub next_psn :
    (p : Pmtu) (va psn n l k : ℕ)
    → 0 < l
    → 0 < k
    → (va + l) % pmtu_bytes p ≡ 0
    → l ≡ to_boundary p va
    → n ≡ l + k
    → wrapping_add psn (calculate_packet_cnt p va n)
      ≡ wrapping_add (wrapping_add psn 1) (calculate_packet_cnt p (va + l) k)
next_psn p va psn n l k some_l some_k aligned full e = omega (
  arith,
  wrapping_add_lem psn (calculate_packet_cnt p va n),
  wrapping_add_lem psn 1,
  wrapping_add_lem (wrapping_add psn 1) (calculate_packet_cnt p (va + l) k),
  ap (calculate_packet_cnt p va) e,
  calculate_packet_cnt-cut p va l k some_l some_k aligned,
  one_packet p va l some_l (omega (arith, full)),
)
