-- ===== src/Device/Report.antt =====
-- What a card reports to the host, of rust_driver/src/device/types.rs: the end of a control request,
-- and the packets that have arrived.
use dtld_rdma_driver.Base.{ℕ, Bool}
use dtld_rdma_driver.Device.Work.{
  ToHostWorkRbDescCommon, ToHostWorkRbDescWriteType, ToHostWorkRbDescRead,
  ToHostWorkRbDescWriteOrReadResp, ToHostWorkRbDescAck,
}

pub data CtrlRbDescOpcode : Type 0 where
  update_mr_table update_page_table qp_management set_network_param set_raw_packet_receive_meta
        update_error_psn_recover_point :
      CtrlRbDescOpcode

-- `ToHostCtrlRbDescCommon`, the one field of `ToHostCtrlRbDesc`
pub record ToHostCtrlRbDescCommon : Type 0 where
  pub op_id : ℕ
  pub opcode : CtrlRbDescOpcode
  pub is_success : Bool

pub record ToHostWorkRbDescWriteWithImm : Type 0 where
  pub common : ToHostWorkRbDescCommon
  pub write_type : ToHostWorkRbDescWriteType
  pub psn : ℕ
  pub imm : ℕ
  pub addr : ℕ
  pub len : ℕ
  pub key : ℕ

-- `ToHostWorkRbDesc`, without the raw packets, which only the hardware reports
pub data ToHostWorkRbDesc : Type 0 where
  read : ToHostWorkRbDescRead → ToHostWorkRbDesc
  write_or_read_resp : ToHostWorkRbDescWriteOrReadResp → ToHostWorkRbDesc
  write_with_imm : ToHostWorkRbDescWriteWithImm → ToHostWorkRbDesc
  ack : ToHostWorkRbDescAck → ToHostWorkRbDesc
