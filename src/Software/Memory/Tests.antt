-- ===== src/Software/Memory/Tests.antt =====
-- A region that is registered, and a packet that arrives for it.
use dtld_rdma_driver.Base.{
  ℕ, ◌+◌, ◌^◌, ◌<◌, ◌≤◌, ◌≡◌, ◌≢◌, ◌↔◌, refl, ap, Bool, true, false, Option, some, none, [], ◌∷◌,
  All, arith, if◌then◌else◌, ◌==◌,
}
use dtld_rdma_driver.Device.Work.{normal}
use dtld_rdma_driver.Device.Ctrl.{ToCardCtrlRbDescUpdateMrTable, update_mr_table}
use dtld_rdma_driver.Device.Opcode.{rdma_write_middle}
use dtld_rdma_driver.Checker.Contexts.{lookup}
use dtld_rdma_driver.Device.Work
use dtld_rdma_driver.Software.Message.{RdmaGeneralMeta, general, has_payload, needed_permissions}
use dtld_rdma_driver.Software.Logic.{RdmaMessage}
use dtld_rdma_driver.Software.Memory.{
  MemoryRegion, Tables, Received, contains, update, validate_rkey, check_region, recv, recv_general,
  report, copy_to,
}
use dtld_rdma_driver.Software.Memory.Access.{update-validate_rkey, recv-Writable, Writable}

abbrev registration : ToCardCtrlRbDescUpdateMrTable
registration = record {
  common = record { op_id = 5 };
  addr = 8192;
  len = 4096;
  key = 7;
  pd_hdl = 1;
  acc_flags = 3;
  pgt_offset = 0;
}

abbrev empty : Tables
empty = record { mr_rkey_table = []; qp_table = [] }

abbrev registered : Tables
registered = record {
  mr_rkey_table =
      (7, record { key = 7; acc_flags = 3; pdkey = 1; addr = 8192; len = 4096; pgt_offset = 0 })
      ∷ [];
  qp_table = [];
}

update-validate_rkey_example :
    let t' = (update (update_mr_table registration) empty).1 in
    ((validate_rkey t' 7 2 8448 256 ≡ normal)
      ↔ ((contains 3 2 ≡ true) × (8192 ≤ 8448) × (8448 + 256 ≤ 8192 + 4096)))
    × ((key : ℕ) → key ≢ 7 → validate_rkey t' key 2 8448 256 ≡ validate_rkey empty key 2 8448 256)
update-validate_rkey_example =
    update-validate_rkey registration empty 2 8448 256 (omega arith) (omega arith)

abbrev header : RdmaGeneralMeta
header = record {
  common_meta = record {
    tran_type = Work.rc;
    opcode = rdma_write_middle;
    solicited = false;
    pkey = 3;
    dqpn = 9;
    ack_req = false;
    psn = 20;
  };
  reth = record { va = 8448; rkey = 7; len = 256 };
  imm = none;
  secondary_reth = none;
}

abbrev message : RdmaMessage
message = record {
  meta_data = general header;
  payload = record {
    sg_list = record { from = 0; len = 100 } ∷ record { from = 500; len = 156 } ∷ [];
    total_len = 256;
  };
}

received : (r : Received) × (recv registered message ≡ some r)
unfolding recv recv_general report
received = (_, refl)

-- The packet is written in two pieces.
received-copies :
    received.0.copies
    ≡ record { from = 0; to = 8448; len = 100 } ∷ record { from = 500; to = 8548; len = 156 } ∷ []
unfolding received recv recv_general report validate_rkey lookup check_region needed_permissions
    has_payload copy_to Work.is_ok
received-copies = refl

abbrev end_of : Option MemoryRegion → ℕ
end_of none = 0
end_of (some mr) = mr.addr + mr.len

small_region :
    (b : Bool) (region mr : MemoryRegion)
    → region.addr + region.len < 2 ^ 64
    → (if b then some region else none) ≡ some mr
    → mr.addr + mr.len < 2 ^ 64
small_region true region mr h e = omega (arith, ap end_of e, h)
small_region false region mr h e = absurd (cc)

small_regions :
    (key : ℕ) (mr : MemoryRegion)
    → lookup key registered.mr_rkey_table ≡ some mr
    → mr.addr + mr.len < 2 ^ 64
unfolding lookup
small_regions key mr e = small_region (7 == key) _ mr (omega arith) e

recv-Writable_example : All (Writable registered 7) received.0.copies
recv-Writable_example =
    recv-Writable registered message header received.0 small_regions refl (omega arith)
      (omega arith) received.1
