-- ===== src/Device/Work.antt =====
-- The work descriptors: what the host asks of the card and what the card reports
-- (rust_driver/src/device/types.rs). Addresses, keys and numbers of queue pairs and messages are
-- plain numbers; a box is its content.
use dtld_rdma_driver.Base.{ℕ, ◌+◌, Bool, true, false, Option, some, none}
use dtld_rdma_driver.Types.{Pmtu, mtu256, QpType, rc as reliable}

pub record DescSge : Type 0 where
  pub addr : ℕ
  pub len : ℕ
  pub key : ℕ

abbrev pub sge_default : DescSge
sge_default = record { addr = 0; len = 0; key = 0 }

pub record ToCardWorkRbDescCommon : Type 0 where
  pub total_len : ℕ
  pub raddr : ℕ
  pub rkey : ℕ
  pub dqp_ip : ℕ
  pub dqpn : ℕ
  pub mac_addr : ℕ
  pub pmtu : Pmtu
  pub flags : ℕ
  pub qp_type : QpType
  pub psn : ℕ
  pub msn : ℕ

abbrev pub common_default : ToCardWorkRbDescCommon
common_default = record {
  total_len = 0;
  raddr = 0;
  rkey = 0;
  dqp_ip = 0;
  dqpn = 0;
  mac_addr = 0;
  pmtu = mtu256;
  flags = 0;
  qp_type = reliable;
  psn = 0;
  msn = 0;
}

pub record ToCardWorkRbDescRead : Type 0 where
  pub common : ToCardWorkRbDescCommon
  pub sge : DescSge

pub record ToCardWorkRbDescWrite : Type 0 where
  pub common : ToCardWorkRbDescCommon
  pub is_last : Bool
  pub is_first : Bool
  pub sge0 : DescSge
  pub sge1 : Option DescSge
  pub sge2 : Option DescSge
  pub sge3 : Option DescSge

pub record ToCardWorkRbDescWriteWithImm : Type 0 where
  pub common : ToCardWorkRbDescCommon
  pub is_last : Bool
  pub is_first : Bool
  pub imm : ℕ
  pub sge0 : DescSge
  pub sge1 : Option DescSge
  pub sge2 : Option DescSge
  pub sge3 : Option DescSge

pub data ToCardWorkRbDesc : Type 0 where
  read : ToCardWorkRbDescRead → ToCardWorkRbDesc
  write : ToCardWorkRbDescWrite → ToCardWorkRbDesc
  write_with_imm : ToCardWorkRbDescWriteWithImm → ToCardWorkRbDesc
  read_resp : ToCardWorkRbDescWrite → ToCardWorkRbDesc

abbrev has : Option DescSge → ℕ
has (some _) = 1
has none = 0

-- How many slots of the ring a descriptor takes.
unfoldable pub serialized_desc_cnt : ToCardWorkRbDesc → ℕ
serialized_desc_cnt (read _) = 2 + 1
serialized_desc_cnt (write d) = 2 + (1 + has d.sge2)
serialized_desc_cnt (read_resp d) = 2 + (1 + has d.sge2)
serialized_desc_cnt (write_with_imm d) = 2 + (1 + has d.sge2)

pub data ToHostWorkRbDescStatus : Type 0 where
  normal inv_acc_flag inv_opcode inv_mr_key inv_mr_region unknown : ToHostWorkRbDescStatus

unfoldable pub is_ok : ToHostWorkRbDescStatus → Bool
is_ok normal = true
is_ok _ = false

pub data ToHostWorkRbDescTransType : Type 0 where
  rc uc rd ud cnp xrc dtld_extended : ToHostWorkRbDescTransType

pub data ToHostWorkRbDescWriteType : Type 0 where
  first middle last only : ToHostWorkRbDescWriteType

pub data ToHostWorkRbDescAethCode : Type 0 where
  ack rnr rsvd nak : ToHostWorkRbDescAethCode

pub record ToHostWorkRbDescCommon : Type 0 where
  pub status : ToHostWorkRbDescStatus
  pub trans : ToHostWorkRbDescTransType
  pub dqpn : ℕ
  pub msn : ℕ
  pub expected_psn : ℕ

pub record ToHostWorkRbDescRead : Type 0 where
  pub common : ToHostWorkRbDescCommon
  pub len : ℕ
  pub laddr : ℕ
  pub lkey : ℕ
  pub raddr : ℕ
  pub rkey : ℕ

pub record ToHostWorkRbDescWriteOrReadResp : Type 0 where
  pub common : ToHostWorkRbDescCommon
  pub is_read_resp : Bool
  pub write_type : ToHostWorkRbDescWriteType
  pub psn : ℕ
  pub addr : ℕ
  pub len : ℕ
  pub can_auto_ack : Bool

pub record ToHostWorkRbDescAck : Type 0 where
  pub common : ToHostWorkRbDescCommon
  pub msn : ℕ
  pub psn : ℕ
  pub retry_psn : ℕ
  pub code : ToHostWorkRbDescAethCode
  pub value : ℕ
