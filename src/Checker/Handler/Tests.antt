-- ===== src/Checker/Handler/Tests.antt =====
-- The checker on a write of three packets.
use dtld_rdma_driver.Base.{ℕ, ◌≡◌, refl, true, false, some, List, [], ◌∷◌, ◌++◌, All}
use dtld_rdma_driver.Types.{mtu256}
use dtld_rdma_driver.Device.Work.{
  ToHostWorkRbDescWriteType, ToHostWorkRbDescWriteOrReadResp, normal, first, middle, last, rc,
}
use dtld_rdma_driver.Checker.Contexts.{lookup}
use dtld_rdma_driver.Checker.Handler.{State}
use dtld_rdma_driver.Checker.Handler.Normal.{
  InOrder, handle_writes, all_answers, Contexts, handle_writes-all_answers,
}

abbrev packet : ToHostWorkRbDescWriteType → ℕ → ToHostWorkRbDescWriteOrReadResp
packet t n = record {
  common = record { status = normal; trans = rc; dqpn = 9; msn = 4; expected_psn = n };
  is_read_resp = false;
  write_type = t;
  psn = n;
  addr = 4096;
  len = 600;
  can_auto_ack = false;
}

abbrev message : List ToHostWorkRbDescWriteOrReadResp
message = packet first 100 ∷ packet middle 101 ∷ packet last 102 ∷ []

abbrev ready : State
ready = record {
  recv_ctx_map = [];
  qp_table = (9, record { is_normal = true; pmtu = mtu256 }) ∷ [];
  effects = [];
}

message-InOrder : All (InOrder ready.qp_table) message
unfolding lookup
message-InOrder = ((_, refl, refl, refl), ((_, refl, refl, refl), ((_, refl, refl, refl), tt)))

handle_writes-all_answers_example :
    (s' : State) × (handle_writes message ready ≡ some s')
    × (s'.qp_table ≡ ready.qp_table)
    × (s'.effects ≡ ready.effects ++ all_answers message)
    × Contexts message ready
handle_writes-all_answers_example = handle_writes-all_answers message ready message-InOrder
