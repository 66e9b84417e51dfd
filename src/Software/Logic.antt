-- ===== src/Software/Logic.antt =====
-- `BlueRDMALogic::send` of rust_driver/src/device/software/logic.rs. The network agent is a
-- parameter: what it answers to a datagram, given those that it took before; `none` is `Ok(())`.
-- The result is what the agent took, and the error that the call ends with, if any.
pub mod Boundary
pub mod Packets
pub mod Wires
pub mod Rest
pub mod Send
pub mod Shape
pub mod Segment
pub mod Segments
pub mod Whole
pub mod Delivery
pub mod Asked
mod Tests
use dtld_rdma_driver.Base.{
  ℕ, zero, suc, ◌+◌, ◌-◌, Bool, true, false, Option, some, none, List, [], ◌∷◌, ◌++◌, add64, sub32,
  ltb, leb, if◌then◌else◌, get_or,
}
use dtld_rdma_driver.Types.{Pmtu, pmtu_bytes}
use dtld_rdma_driver.Types.Psn.{wrapping_add}
use dtld_rdma_driver.Utils.{get_first_packet_max_length}
use dtld_rdma_driver.Device.Work.{ToCardWorkRbDesc, ToCardWorkRbDescCommon}
use dtld_rdma_driver.Device.Opcode.{
  is_first, ToHostWorkRbDescOpcode, rdma_write_only, rdma_read_request,
}
use dtld_rdma_driver.Software.Message.{
  RethHeader, RdmaMessageMetaCommon, RdmaGeneralMeta, Metadata, general, trans_type_of,
}
use dtld_rdma_driver.Software.Payload.{
  PayloadInfo, no_payload, no_element, SgList, cut, cut_all_levels, get_total_length,
}
use dtld_rdma_driver.Software.Request.{
  ToCardDescriptor, to_write, to_read, ToCardWriteDescriptor, ToCardReadDescriptor, of_desc,
  is_raw_packet, common_of, first_sge, write_only_opcode_with_imm, write_first_opcode,
  write_middle_opcode, write_last_opcode_with_imm,
}

pub record RdmaMessage : Type 0 where
  pub meta_data : Metadata
  pub payload : PayloadInfo

-- What is handed to the agent: an address, a port, and a message or the bytes of a raw packet.
pub data Datagram : Type 0 where
  rdma : ℕ → ℕ → RdmaMessage → Datagram
  raw : ℕ → ℕ → PayloadInfo → Datagram

abbrev pub rdma_port : ℕ
rdma_port = 4791

pub data LogicError (E : Type 0) : Type 0 where
  net_agent_error : E → LogicError E
  raw_packet_length_too_long : ℕ → ℕ → LogicError E
  unreachable : LogicError E

pub record Sent (E : Type 0) : Type 0 where
  pub datagrams : List Datagram
  pub error : Option (LogicError E)

-- The fields of the metadata that a packet of a write sets.
abbrev pub packet_meta :
    RdmaGeneralMeta → ToHostWorkRbDescOpcode → Option ℕ → ℕ → ℕ → ℕ → RdmaGeneralMeta
packet_meta meta opcode imm va len psn = record meta {
  common_meta = record meta.common_meta { opcode = opcode; psn = psn };
  reth = record meta.reth { va = va; len = len };
  imm = imm;
}

abbrev pub meta_of : ToCardWorkRbDescCommon → RdmaMessageMetaCommon
meta_of common = record {
  tran_type = trans_type_of common.qp_type;
  opcode = rdma_write_only;
  solicited = false;
  pkey = common.msn;
  dqpn = common.dqpn;
  ack_req = false;
  psn = common.psn;
}

-- The metadata that the packets of a write start from.
abbrev pub write_meta : ToCardWriteDescriptor → RdmaMessageMetaCommon → RdmaGeneralMeta
write_meta req common_meta = record {
  common_meta = common_meta;
  reth = record { va = req.common.raddr; rkey = req.common.rkey; len = req.common.total_len };
  imm = none;
  secondary_reth = none;
}

-- The variables of the loop that sends the packets of a write.
pub record Cursor : Type 0 where
  pub sg_list : SgList
  pub cur_len : ℕ
  pub psn : ℕ
  pub cur_va : ℕ

module _ {E : Type 0} (agent : List Datagram → Datagram → Option E) where
  -- `?` on the answer of the agent.
  unfoldable pub emit : Datagram → List Datagram → (List Datagram → Sent E) → Sent E
  emit d sent next = elim (agent sent d) [
    | none ↦ next (sent ++ d ∷ [])
    | some e ↦ record { datagrams = sent; error = some (net_agent_error e) }
  ]

  abbrev pub finished : List Datagram → Sent E
  finished sent = record { datagrams = sent; error = none }

  abbrev pub failing : LogicError E → List Datagram → Sent E
  failing e sent = record { datagrams = sent; error = some e }

  unfoldable pub send_raw_packet : ToCardDescriptor → List Datagram → Sent E
  send_raw_packet desc sent =
      let common = common_of desc in
      let pmtu = pmtu_bytes common.pmtu in
      if ltb pmtu common.total_len
      then failing (raw_packet_length_too_long pmtu common.total_len) sent
      else elim (cut common.total_len (first_sge desc)) [
        | none ↦ failing unreachable sent
        | some (payload, _) ↦ emit (raw common.dqp_ip rdma_port payload) sent finished
      ]

  unfoldable pub send_write_only_packet :
      ToCardWriteDescriptor → RdmaGeneralMeta → List Datagram → Sent E
  send_write_only_packet req meta sent =
      let (payload, cleared) = cut_all_levels req.sg_list in
      let (opcode, imm) = write_only_opcode_with_imm req in
      let len = if is_first opcode then req.common.total_len else get_total_length cleared in
      let msg : RdmaMessage = record {
        meta_data = general (packet_meta meta opcode imm meta.reth.va len meta.common_meta.psn);
        payload = payload;
      } in
      emit (rdma req.common.dqp_ip rdma_port msg) sent finished

  unfoldable pub send_read_packet :
      ToCardReadDescriptor → RdmaMessageMetaCommon → List Datagram → Sent E
  send_read_packet req common_meta sent =
      let local_sa = get_or req.sge.elements 0 no_element in
      let msg : RdmaMessage = record {
        meta_data = general (record {
          common_meta = record common_meta { opcode = rdma_read_request };
          reth = record {
            va = req.common.raddr;
            rkey = req.common.rkey;
            len = req.common.total_len;
          };
          imm = none;
          secondary_reth =
              some (record { va = local_sa.addr; rkey = local_sa.key; len = local_sa.len });
        });
        payload = no_payload;
      } in
      emit (rdma req.common.dqp_ip rdma_port msg) sent finished

  unfoldable pub send_last :
      ToCardWriteDescriptor → RdmaGeneralMeta → Cursor → List Datagram → Sent E
  send_last req meta c sent = elim (cut c.cur_len c.sg_list) [
    | none ↦ failing unreachable sent
    | some (payload, _) ↦
        let (opcode, imm) = write_last_opcode_with_imm req in
        let msg : RdmaMessage = record {
          meta_data = general (packet_meta meta opcode imm c.cur_va c.cur_len c.psn);
          payload = payload;
        } in
        emit (rdma req.common.dqp_ip rdma_port msg) sent finished
  ]

  -- The loop over the middle packets and the last packet after it, on fuel: with as much fuel as
  -- there are bytes left, nothing is left where the fuel ends.
  unfoldable pub send_rest :
      ℕ → ToCardWriteDescriptor → RdmaGeneralMeta → Cursor → List Datagram → Sent E
  send_rest zero req meta c sent = send_last req meta c sent
  send_rest (suc fuel) req meta c sent =
      let pmtu = pmtu_bytes req.common.pmtu in
      if ltb pmtu c.cur_len
      then elim (cut pmtu c.sg_list) [
        | none ↦ failing unreachable sent
        | some (payload, left) ↦
            let msg : RdmaMessage = record {
              meta_data =
                  general (packet_meta meta (write_middle_opcode req) meta.imm c.cur_va pmtu c.psn);
              payload = payload;
            } in
            let next : Cursor = record {
              sg_list = left;
              cur_len = c.cur_len - pmtu;
              psn = wrapping_add c.psn 1;
              cur_va = add64 c.cur_va pmtu;
            } in
            emit (rdma req.common.dqp_ip rdma_port msg) sent (send_rest fuel req meta next)
      ]
      else send_last req meta c sent

  unfoldable pub send_write : ToCardWriteDescriptor → RdmaMessageMetaCommon → List Datagram → Sent E
  send_write req common_meta sent =
      let first_packet_max_length =
        get_first_packet_max_length req.common.raddr (pmtu_bytes req.common.pmtu) in
      let meta = write_meta req common_meta in
      let cur_len = get_total_length req.sg_list in
      if leb cur_len first_packet_max_length
      then send_write_only_packet req meta sent
      else elim (cut first_packet_max_length req.sg_list) [
        | none ↦ failing unreachable sent
        | some (payload, left) ↦
            let opcode = write_first_opcode req in
            let len = if is_first opcode then req.common.total_len else first_packet_max_length in
            let msg : RdmaMessage = record {
              meta_data =
                  general (packet_meta meta opcode none req.common.raddr len common_meta.psn);
              payload = payload;
            } in
            let next : Cursor = record {
              sg_list = left;
              cur_len = cur_len - first_packet_max_length;
              psn = wrapping_add req.common.psn 1;
              cur_va = add64 req.common.raddr first_packet_max_length;
            } in
            emit (rdma req.common.dqp_ip rdma_port msg) sent (send_rest cur_len req meta next)
      ]

  abbrev send_by_kind : ToCardDescriptor → List Datagram → Sent E
  send_by_kind (to_write req) sent = send_write req (meta_of req.common) sent
  send_by_kind (to_read req) sent = send_read_packet req (meta_of req.common) sent

  -- `BlueRDMALogic::send`
  unfoldable pub send : ToCardWorkRbDesc → List Datagram → Sent E
  send d sent =
      let desc = of_desc d in
      if is_raw_packet desc then send_raw_packet desc sent else send_by_kind desc sent

  abbrev pub logged : Option (LogicError E) → List (LogicError E) → List (LogicError E)
  logged none errors = errors
  logged (some e) errors = e ∷ errors

  -- The loop of `DescriptorScheduler::new_with_software` over a batch: an error is logged, and the
  -- next descriptor follows.
  unfoldable pub send_batch :
      List ToCardWorkRbDesc → List Datagram → List Datagram × List (LogicError E)
  send_batch [] sent = (sent, [])
  send_batch (d ∷ ds) sent =
      let s = send d sent in
      let (all_sent, errors) = send_batch ds s.datagrams in (all_sent, logged s.error errors)
