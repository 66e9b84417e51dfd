-- ===== src/Software/Message.antt =====
-- The messages of rust_driver/src/device/software/types.rs. Wrapped numbers (keys, handles, numbers
-- of queue pairs) are plain numbers.
use dtld_rdma_driver.Base.{ℕ, Bool, true, false, Option, if◌then◌else◌}
use dtld_rdma_driver.Types.{QpType, rc, uc, ud, raw_packet, xrc_send, xrc_recv}
use dtld_rdma_driver.Device.Work.{ToHostWorkRbDescTransType, ToHostWorkRbDescAethCode}
use dtld_rdma_driver.Device.Opcode.{
  ToHostWorkRbDescOpcode, rdma_write_first, rdma_write_middle, rdma_write_last,
  rdma_write_last_with_immediate, rdma_write_only, rdma_write_only_with_immediate,
  rdma_read_response_first, rdma_read_response_middle, rdma_read_response_last,
  rdma_read_response_only, rdma_read_request,
}

-- The addresses and lengths that a payload is collected from, and their total.
pub record SgListElement : Type 0 where
  pub from : ℕ
  pub len : ℕ

pub record RethHeader : Type 0 where
  pub va : ℕ
  pub rkey : ℕ
  pub len : ℕ

pub record RdmaMessageMetaCommon : Type 0 where
  pub tran_type : ToHostWorkRbDescTransType
  pub opcode : ToHostWorkRbDescOpcode
  pub solicited : Bool
  pub pkey : ℕ
  pub dqpn : ℕ
  pub ack_req : Bool
  pub psn : ℕ

pub record RdmaGeneralMeta : Type 0 where
  pub common_meta : RdmaMessageMetaCommon
  pub reth : RethHeader
  pub imm : Option ℕ
  pub secondary_reth : Option RethHeader

pub record AethHeader : Type 0 where
  pub common_meta : RdmaMessageMetaCommon
  pub aeth_code : ToHostWorkRbDescAethCode
  pub aeth_value : ℕ
  pub msn : ℕ

pub data Metadata : Type 0 where
  general : RdmaGeneralMeta → Metadata
  acknowledge : AethHeader → Metadata

-- `Metadata::common_meta` and `Metadata::get_opcode`
unfoldable pub common_meta_of : Metadata → RdmaMessageMetaCommon
common_meta_of (general header) = header.common_meta
common_meta_of (acknowledge header) = header.common_meta

unfoldable pub get_opcode : Metadata → ToHostWorkRbDescOpcode
get_opcode (general header) = header.common_meta.opcode
get_opcode (acknowledge header) = header.common_meta.opcode

-- The opcodes of `RdmaGeneralMeta::has_payload`.
unfoldable pub has_payload : ToHostWorkRbDescOpcode → Bool
has_payload rdma_write_first = true
has_payload rdma_write_middle = true
has_payload rdma_write_last = true
has_payload rdma_write_last_with_immediate = true
has_payload rdma_write_only = true
has_payload rdma_write_only_with_immediate = true
has_payload rdma_read_response_first = true
has_payload rdma_read_response_middle = true
has_payload rdma_read_response_last = true
has_payload rdma_read_response_only = true
has_payload _ = false

unfoldable pub is_read_request : ToHostWorkRbDescOpcode → Bool
is_read_request rdma_read_request = true
is_read_request _ = false

-- Bits of `MemAccessTypeFlag`.
abbrev pub access_no_flags : ℕ
access_no_flags = 0

abbrev pub access_remote_write : ℕ
access_remote_write = 2

abbrev pub access_remote_read : ℕ
access_remote_read = 4

unfoldable pub needed_permissions : ToHostWorkRbDescOpcode → ℕ
needed_permissions opcode =
    if has_payload opcode
    then access_remote_write
    else if is_read_request opcode
    then access_remote_read
    else access_no_flags

-- `ToHostWorkRbDescTransType::from(&QpType)`
unfoldable pub trans_type_of : QpType → ToHostWorkRbDescTransType
trans_type_of rc = ToHostWorkRbDescTransType.rc
trans_type_of raw_packet = ToHostWorkRbDescTransType.rc
trans_type_of ud = ToHostWorkRbDescTransType.ud
trans_type_of uc = ToHostWorkRbDescTransType.uc
trans_type_of xrc_recv = ToHostWorkRbDescTransType.xrc
trans_type_of xrc_send = ToHostWorkRbDescTransType.xrc
