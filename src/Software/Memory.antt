-- ===== src/Software/Memory.antt =====
-- The tables of the card in software and what it does with a packet that arrives: `update`,
-- `validate_rkey` and `recv` of rust_driver/src/device/software/logic.rs. The tables are association
-- lists. The descriptors that are pushed to the host are results.
pub mod Access
mod Tests
use dtld_rdma_driver.Base.{
  ℕ, ◌+◌, ◌%◌, ◌^◌, bit_and, Bool, true, false, ◌&&◌, ◌||◌, Option, some, none, List, [], ◌∷◌, ltb,
  ◌==◌, add64, if◌then◌else◌, u16,
}
use dtld_rdma_driver.Types.{Pmtu, QpType}
use dtld_rdma_driver.Device.Ctrl.{
  ToCardCtrlRbDesc, update_mr_table, update_page_table, qp_management, set_network_param,
  set_raw_packet_receive_meta, update_error_psn_recover_point, ToCardCtrlRbDescUpdateMrTable,
  ToCardCtrlRbDescQpManagement,
}
use dtld_rdma_driver.Device.Work.{
  ToHostWorkRbDescStatus, normal, inv_acc_flag, inv_mr_key, inv_mr_region, unknown, is_ok,
  ToHostWorkRbDescCommon, ack, rnr, rsvd, nak, only,
}
use dtld_rdma_driver.Device.Work
use dtld_rdma_driver.Device.Opcode.{
  ToHostWorkRbDescOpcode, is_resp, write_type, rdma_write_first, rdma_write_middle, rdma_write_last,
  rdma_write_last_with_immediate, rdma_write_only, rdma_write_only_with_immediate,
  rdma_read_response_first, rdma_read_response_middle, rdma_read_response_last,
  rdma_read_response_only, rdma_read_request, acknowledge,
}
use dtld_rdma_driver.Device.Report.{CtrlRbDescOpcode, ToHostCtrlRbDescCommon, ToHostWorkRbDesc}
use dtld_rdma_driver.Device.Report
use dtld_rdma_driver.Checker.Contexts.{lookup, put, delete}
use dtld_rdma_driver.Software.Message.{
  SgListElement, RdmaGeneralMeta, AethHeader, Metadata, general, common_meta_of, has_payload,
  needed_permissions,
}
use dtld_rdma_driver.Software.Message
use dtld_rdma_driver.Software.Logic.{RdmaMessage}

pub record QueuePairInner : Type 0 where
  pub pmtu : Pmtu
  pub qp_type : QpType
  pub qp_access_flags : ℕ
  pub pdkey : ℕ

pub record MemoryRegion : Type 0 where
  pub key : ℕ
  pub acc_flags : ℕ
  pub pdkey : ℕ
  pub addr : ℕ
  pub len : ℕ
  pub pgt_offset : ℕ

pub record Tables : Type 0 where
  pub mr_rkey_table : List (ℕ × MemoryRegion)
  pub qp_table : List (ℕ × QueuePairInner)

unfoldable pub to_host_ctrl_opcode : ToCardCtrlRbDesc → CtrlRbDescOpcode
to_host_ctrl_opcode (update_mr_table _) = Report.update_mr_table
to_host_ctrl_opcode (update_page_table _) = Report.update_page_table
to_host_ctrl_opcode (qp_management _) = Report.qp_management
to_host_ctrl_opcode (set_network_param _) = Report.set_network_param
to_host_ctrl_opcode (set_raw_packet_receive_meta _) = Report.set_raw_packet_receive_meta
to_host_ctrl_opcode (update_error_psn_recover_point _) = Report.update_error_psn_recover_point

abbrev pub is_some {ℓ} : {A : Type ℓ} → Option A → Bool
is_some none = false
is_some (some _) = true

-- The entry of a queue pair is made or replaced, or removed, which fails where there is none.
unfoldable pub manage_qp : ToCardCtrlRbDescQpManagement → Tables → Bool × Tables
manage_qp desc t =
    let qp_inner : QueuePairInner = record {
      pmtu = desc.pmtu;
      qp_type = desc.qp_type;
      qp_access_flags = desc.rq_acc_flags;
      pdkey = desc.pd_hdl;
    } in
    if desc.is_valid
    then (true, record t { qp_table = put desc.qpn qp_inner t.qp_table })
    else if is_some (lookup desc.qpn t.qp_table)
    then (true, record t { qp_table = delete desc.qpn t.qp_table })
    else (false, t)

abbrev pub region_of : ToCardCtrlRbDescUpdateMrTable → MemoryRegion
region_of desc = record {
  key = desc.key;
  acc_flags = desc.acc_flags;
  pdkey = desc.pd_hdl;
  addr = desc.addr;
  len = desc.len;
  pgt_offset = desc.pgt_offset;
}

abbrev done : ToCardCtrlRbDesc → ℕ → Bool × Tables → ToHostCtrlRbDescCommon × Tables
done desc op_id (is_succ, t) =
    (record { op_id = op_id; opcode = to_host_ctrl_opcode desc; is_success = is_succ }, t)

-- `BlueRDMALogic::update`, with the report that it pushes.
unfoldable pub update : ToCardCtrlRbDesc → Tables → ToHostCtrlRbDescCommon × Tables
update (qp_management desc) t = done (qp_management desc) desc.common.op_id (manage_qp desc t)
update (update_mr_table desc) t =
    let table = put desc.key (region_of desc) t.mr_rkey_table in
    done (update_mr_table desc) desc.common.op_id (true, record t { mr_rkey_table = table })
update (update_page_table desc) t = done (update_page_table desc) desc.common.op_id (true, t)
update (set_network_param desc) t = done (set_network_param desc) desc.common.op_id (true, t)
update (set_raw_packet_receive_meta desc) t =
    done (set_raw_packet_receive_meta desc) desc.common.op_id (true, t)
update (update_error_psn_recover_point desc) t =
    done (update_error_psn_recover_point desc) desc.common.op_id (true, t)

-- `contains` of the flags: every bit that is asked for is there.
abbrev pub contains : ℕ → ℕ → Bool
contains flags needed = bit_and flags needed == needed

unfoldable pub check_region : MemoryRegion → ℕ → ℕ → ℕ → ToHostWorkRbDescStatus
check_region mr needed va length =
    if contains mr.acc_flags needed
    then if ltb va mr.addr || ltb (add64 mr.addr mr.len) (add64 va length)
      then inv_mr_region
      else normal
    else inv_acc_flag

unfoldable pub validate_rkey : Tables → ℕ → ℕ → ℕ → ℕ → ToHostWorkRbDescStatus
validate_rkey t rkey needed va length = elim (lookup rkey t.mr_rkey_table) [
  | none ↦ inv_mr_key
  | some mr ↦ check_region mr needed va length
]

-- A piece of memory that is written.
pub record Copy : Type 0 where
  pub from : ℕ
  pub to : ℕ
  pub len : ℕ

-- `PayloadInfo::copy_to`
unfoldable pub copy_to : ℕ → List SgListElement → List Copy
copy_to dst [] = []
copy_to dst (element ∷ rest) =
    record { from = element.from; to = dst; len = element.len } ∷ copy_to (dst + element.len) rest

unfoldable pub recv_default_meta : RdmaMessage → ToHostWorkRbDescCommon
recv_default_meta message = record {
  status = unknown;
  trans = Work.rc;
  dqpn = (common_meta_of message.meta_data).dqpn;
  msn = (common_meta_of message.meta_data).pkey;
  expected_psn = 0;
}

-- What comes of a packet: what is written to memory, and what is pushed to the host. A packet that is
-- dropped with a message in the log pushes nothing.
pub record Received : Type 0 where
  pub copies : List Copy
  pub descriptor : Option ToHostWorkRbDesc

abbrev or_only : Option Work.ToHostWorkRbDescWriteType → Work.ToHostWorkRbDescWriteType
or_only none = only
or_only (some t) = t

abbrev or_zero : Option ℕ → ℕ
or_zero none = 0
or_zero (some i) = i

abbrev report_write : RdmaGeneralMeta → ToHostWorkRbDescCommon → ToHostWorkRbDesc
report_write header common = Report.write_or_read_resp (record {
  common = common;
  is_read_resp = is_resp header.common_meta.opcode;
  write_type = or_only (write_type header.common_meta.opcode);
  psn = header.common_meta.psn;
  addr = header.reth.va;
  len = header.reth.len;
  can_auto_ack = false;
})

abbrev report_imm : RdmaGeneralMeta → ToHostWorkRbDescCommon → ToHostWorkRbDesc
report_imm header common = Report.write_with_imm (record {
  common = common;
  write_type = or_only (write_type header.common_meta.opcode);
  psn = header.common_meta.psn;
  imm = or_zero header.imm;
  addr = header.reth.va;
  len = header.reth.len;
  key = header.reth.rkey;
})

-- The report of a packet by its opcode. The outer `none` is a panic.
unfoldable pub report :
    RdmaGeneralMeta
    → ToHostWorkRbDescCommon
    → ToHostWorkRbDescOpcode
    → Option (Option ToHostWorkRbDesc)
report header common rdma_write_first = some (some (report_write header common))
report header common rdma_write_middle = some (some (report_write header common))
report header common rdma_write_last = some (some (report_write header common))
report header common rdma_write_only = some (some (report_write header common))
report header common rdma_read_response_first = some (some (report_write header common))
report header common rdma_read_response_middle = some (some (report_write header common))
report header common rdma_read_response_last = some (some (report_write header common))
report header common rdma_read_response_only = some (some (report_write header common))
report header common rdma_write_last_with_immediate = some (some (report_imm header common))
report header common rdma_write_only_with_immediate = some (some (report_imm header common))
report header common rdma_read_request = elim header.secondary_reth [
  | none ↦ some none
  | some sec_reth ↦ some (
      some (
        Report.read (record {
          common = common;
          len = header.reth.len;
          laddr = header.reth.va;
          lkey = header.reth.rkey;
          raddr = sec_reth.va;
          rkey = sec_reth.rkey;
        })))
]
report header common acknowledge = none

abbrev pub copies_made : ToHostWorkRbDescStatus → Bool → ℕ → List SgListElement → List Copy
copies_made status with_payload va elements =
    if is_ok status && with_payload then copy_to va elements else []

abbrev pub received : List Copy → Option (Option ToHostWorkRbDesc) → Option Received
received copies none = none
received copies (some descriptor) = some (record { copies = copies; descriptor = descriptor })

unfoldable pub recv_general : Tables → RdmaGeneralMeta → RdmaMessage → Option Received
recv_general t header message =
    let opcode = header.common_meta.opcode in
    let status =
      validate_rkey t header.reth.rkey (needed_permissions opcode) header.reth.va header.reth.len in
    let common = record (recv_default_meta message) { status = status } in
    received (copies_made status (has_payload opcode) header.reth.va message.payload.sg_list)
      (report header common opcode)

unfoldable pub recv_acknowledge : AethHeader → RdmaMessage → Option Received
recv_acknowledge header message =
    let common = record (recv_default_meta message) { status = normal } in
    elim header.aeth_code [
      | ack ↦ some (record {
        copies = [];
        descriptor = some (
            Report.ack (record {
              common = common;
              msn = u16 header.msn;
              psn = header.common_meta.psn;
              retry_psn = 0;
              code = ack;
              value = header.aeth_value;
            }));
      })
      | rnr ↦ none
      | rsvd ↦ none
      | nak ↦ none
    ]

abbrev pub recv_by_meta : Tables → RdmaMessage → Metadata → Option Received
recv_by_meta t message (general header) = recv_general t header message
recv_by_meta t message (Message.acknowledge header) = recv_acknowledge header message

-- `BlueRDMALogic::recv`; a panic is `none`. Where the opcode makes it panic, the payload is not
-- copied either, since such a packet has none.
unfoldable pub recv : Tables → RdmaMessage → Option Received
recv t message = recv_by_meta t message message.meta_data
