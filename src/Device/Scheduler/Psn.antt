-- ===== src/Device/Scheduler/Psn.antt =====
-- The PSN of the next segment.
use dtld_rdma_driver.Base.{ℕ, ◌≡◌, ◌+◌, ◌∙◌, ap, arith}
use dtld_rdma_driver.Types.{Pmtu}
use dtld_rdma_driver.Types.Psn.{wrapping_add}
use dtld_rdma_driver.Types.Psn.Order.{wrapping_add_lem}
use dtld_rdma_driver.Utils.{calculate_packet_cnt}
use dtld_rdma_driver.Device.Scheduler.{recalculate_psn}

-- Two steps are one.
pub wrapping_add-wrapping_add :
    (a m n : ℕ) → wrapping_add (wrapping_add a m) n ≡ wrapping_add a (m + n)
wrapping_add-wrapping_add a m n =
    omega (
      arith,
      wrapping_add_lem (wrapping_add a m) n,
      wrapping_add_lem a m,
      wrapping_add_lem a (m + n),
    )

-- The next PSN is the base moved on by the number of packets of the segment.
pub recalculate_psn_lem :
    (raddr : ℕ) (p : Pmtu) (len base : ℕ)
    → recalculate_psn raddr p len base ≡ wrapping_add base (calculate_packet_cnt p raddr len)
unfolding recalculate_psn calculate_packet_cnt
recalculate_psn_lem raddr p len base =
    wrapping_add-wrapping_add base _ 1 ∙ ap (wrapping_add base) (omega arith)
