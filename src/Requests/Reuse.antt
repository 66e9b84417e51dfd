-- ===== src/Requests/Reuse.antt =====
-- What becomes of the contexts of a queue pair's requests: they are never taken out of the map.
use dtld_rdma_driver.Base.{ℕ, ◌≡◌, Bool, true, some, List}
use dtld_rdma_driver.Device.Work.{ToCardWorkRbDesc}
use dtld_rdma_driver.Checker.Contexts.{lookup}
use dtld_rdma_driver.Retry.{find}
use dtld_rdma_driver.Requests.{QpContext, DeviceInner, is_some}

module _ (takes : List ToCardWorkRbDesc → ToCardWorkRbDesc → Bool)
    (room : (sent : List ToCardWorkRbDesc) (d : ToCardWorkRbDesc) → takes sent d ≡ true) where
  -- A queue pair that gives out the message number `msn` next, and its contexts.
  abbrev Next : ℕ → ℕ → DeviceInner → Type 0
  Next q msn s =
      (qp : QpContext) × (lookup q s.qp_table ≡ some qp) × (qp.qpn ≡ q) × (qp.next_msn ≡ msn)

  abbrev Used : ℕ → ℕ → DeviceInner → Type 0
  Used q msn s = is_some (find (q, msn) s.user_op_ctx_map) ≡ true
