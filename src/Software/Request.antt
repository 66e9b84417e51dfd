-- ===== src/Software/Request.antt =====
-- The requests as the card in software sees them: `ToCardDescriptor` of
-- rust_driver/src/device/software/types.rs, and the opcodes of their packets.
use dtld_rdma_driver.Base.{ℕ, Bool, true, false, ◌&&◌, Option, some, none, if◌then◌else◌}
use dtld_rdma_driver.Types.{QpType, rc, uc, ud, raw_packet, xrc_send, xrc_recv}
use dtld_rdma_driver.Device.Work.{ToCardWorkRbDesc, ToCardWorkRbDescCommon}
use dtld_rdma_driver.Device.Work
use dtld_rdma_driver.Device.Opcode.{
  ToHostWorkRbDescOpcode, rdma_write_first, rdma_write_middle, rdma_write_last,
  rdma_write_last_with_immediate, rdma_write_only, rdma_write_only_with_immediate,
  rdma_read_response_first, rdma_read_response_middle, rdma_read_response_last,
  rdma_read_response_only,
}
use dtld_rdma_driver.Software.Payload.{SgList, new_with_sge, new_with_sge_list}

-- `ToCardWorkRbDescOpcode` of device/types.rs
pub data ToCardWorkRbDescOpcode : Type 0 where
  write write_with_imm read read_resp : ToCardWorkRbDescOpcode

pub record ToCardWriteDescriptor : Type 0 where
  pub opcode : ToCardWorkRbDescOpcode
  pub common : ToCardWorkRbDescCommon
  pub imm : Option ℕ
  pub is_first : Bool
  pub is_last : Bool
  pub sg_list : SgList

pub record ToCardReadDescriptor : Type 0 where
  pub common : ToCardWorkRbDescCommon
  pub sge : SgList

pub data ToCardDescriptor : Type 0 where
  to_write : ToCardWriteDescriptor → ToCardDescriptor
  to_read : ToCardReadDescriptor → ToCardDescriptor

-- `ToCardDescriptor::from`
unfoldable pub of_desc : ToCardWorkRbDesc → ToCardDescriptor
of_desc (Work.write desc) = to_write (record {
  opcode = write;
  common = desc.common;
  imm = none;
  is_first = desc.is_first;
  is_last = desc.is_last;
  sg_list = new_with_sge_list desc.sge0 desc.sge1 desc.sge2 desc.sge3;
})
of_desc (Work.read desc) = to_read (record { common = desc.common; sge = new_with_sge desc.sge })
of_desc (Work.write_with_imm desc) = to_write (record {
  opcode = write_with_imm;
  common = desc.common;
  imm = some desc.imm;
  is_first = desc.is_first;
  is_last = desc.is_last;
  sg_list = new_with_sge_list desc.sge0 desc.sge1 desc.sge2 desc.sge3;
})
of_desc (Work.read_resp desc) = to_write (record {
  opcode = read_resp;
  common = desc.common;
  imm = none;
  is_first = desc.is_first;
  is_last = desc.is_last;
  sg_list = new_with_sge_list desc.sge0 desc.sge1 desc.sge2 desc.sge3;
})

abbrev is_with_imm : ToCardWorkRbDescOpcode → Bool
is_with_imm write = false
is_with_imm write_with_imm = true
is_with_imm read = false
is_with_imm read_resp = false

abbrev pub is_raw_type : QpType → Bool
is_raw_type rc = false
is_raw_type uc = false
is_raw_type ud = false
is_raw_type raw_packet = true
is_raw_type xrc_send = false
is_raw_type xrc_recv = false

unfoldable pub is_raw_packet : ToCardDescriptor → Bool
is_raw_packet (to_write desc) = is_with_imm desc.opcode && is_raw_type desc.common.qp_type
is_raw_packet (to_read desc) = false

unfoldable pub common_of : ToCardDescriptor → ToCardWorkRbDescCommon
common_of (to_write desc) = desc.common
common_of (to_read desc) = desc.common

unfoldable pub first_sge : ToCardDescriptor → SgList
first_sge (to_write desc) = desc.sg_list
first_sge (to_read desc) = desc.sge

abbrev pub is_resp_opcode : ToCardWorkRbDescOpcode → Bool
is_resp_opcode write = false
is_resp_opcode write_with_imm = false
is_resp_opcode read = false
is_resp_opcode read_resp = true

-- The opcodes below are functions of `is_first`, `is_last`, `is_resp` and the immediate value.
unfoldable pub last_with_imm : Bool → Option ℕ → ToHostWorkRbDescOpcode × Option ℕ
last_with_imm true imm = (rdma_read_response_last, none)
last_with_imm false (some imm) = (rdma_write_last_with_immediate, some imm)
last_with_imm false none = (rdma_write_last, none)

unfoldable pub only_with_imm : Bool → Option ℕ → ToHostWorkRbDescOpcode × Option ℕ
only_with_imm true imm = (rdma_read_response_only, none)
only_with_imm false (some imm) = (rdma_write_only_with_immediate, some imm)
only_with_imm false none = (rdma_write_only, none)

abbrev pub first_opcode : Bool → ToHostWorkRbDescOpcode
first_opcode is_resp = if is_resp then rdma_read_response_first else rdma_write_first

abbrev pub middle_opcode : Bool → ToHostWorkRbDescOpcode
middle_opcode is_resp = if is_resp then rdma_read_response_middle else rdma_write_middle

unfoldable pub write_only_opcode_with_imm :
    ToCardWriteDescriptor → ToHostWorkRbDescOpcode × Option ℕ
write_only_opcode_with_imm desc =
    let is_resp = is_resp_opcode desc.opcode in
    if desc.is_first && desc.is_last
    then only_with_imm is_resp desc.imm
    else if desc.is_first
    then (first_opcode is_resp, none)
    else last_with_imm is_resp desc.imm

unfoldable pub write_first_opcode : ToCardWriteDescriptor → ToHostWorkRbDescOpcode
write_first_opcode desc =
    let is_resp = is_resp_opcode desc.opcode in
    if desc.is_first then first_opcode is_resp else middle_opcode is_resp

unfoldable pub write_middle_opcode : ToCardWriteDescriptor → ToHostWorkRbDescOpcode
write_middle_opcode desc = middle_opcode (is_resp_opcode desc.opcode)

unfoldable pub write_last_opcode_with_imm :
    ToCardWriteDescriptor → ToHostWorkRbDescOpcode × Option ℕ
write_last_opcode_with_imm desc =
    let is_resp = is_resp_opcode desc.opcode in
    if desc.is_last then last_with_imm is_resp desc.imm else (middle_opcode is_resp, none)
