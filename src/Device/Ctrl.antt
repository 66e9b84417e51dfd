-- ===== src/Device/Ctrl.antt =====
-- The control descriptors of rust_driver/src/device/types.rs: what the host asks of the card's
-- tables. Addresses, keys, masks and flags are plain numbers.
use dtld_rdma_driver.Base.{ℕ, Bool, ◌≡◌, refl}
use dtld_rdma_driver.Types.{Pmtu, QpType}

pub record ToCardCtrlRbDescCommon : Type 0 where
  pub op_id : ℕ

pub record ToCardCtrlRbDescUpdateMrTable : Type 0 where
  pub common : ToCardCtrlRbDescCommon
  pub addr : ℕ
  pub len : ℕ
  pub key : ℕ
  pub pd_hdl : ℕ
  pub acc_flags : ℕ
  pub pgt_offset : ℕ

pub record ToCardCtrlRbDescUpdatePageTable : Type 0 where
  pub common : ToCardCtrlRbDescCommon
  pub start_addr : ℕ
  pub pgt_idx : ℕ
  pub pgte_cnt : ℕ

pub record ToCardCtrlRbDescQpManagement : Type 0 where
  pub common : ToCardCtrlRbDescCommon
  pub is_valid : Bool
  pub qpn : ℕ
  pub pd_hdl : ℕ
  pub qp_type : QpType
  pub rq_acc_flags : ℕ
  pub pmtu : Pmtu
  pub peer_qpn : ℕ

pub record ToCardCtrlRbDescSetNetworkParam : Type 0 where
  pub common : ToCardCtrlRbDescCommon
  pub gateway : ℕ
  pub netmask : ℕ
  pub ipaddr : ℕ
  pub macaddr : ℕ

pub record ToCardCtrlRbDescSetRawPacketReceiveMeta : Type 0 where
  pub common : ToCardCtrlRbDescCommon
  pub base_write_addr : ℕ
  pub key : ℕ

pub record ToCardCtrlRbDescUpdateErrPsnRecoverPoint : Type 0 where
  pub common : ToCardCtrlRbDescCommon
  pub qpn : ℕ
  pub recover_psn : ℕ

pub data ToCardCtrlRbDesc : Type 0 where
  update_mr_table : ToCardCtrlRbDescUpdateMrTable → ToCardCtrlRbDesc
  update_page_table : ToCardCtrlRbDescUpdatePageTable → ToCardCtrlRbDesc
  qp_management : ToCardCtrlRbDescQpManagement → ToCardCtrlRbDesc
  set_network_param : ToCardCtrlRbDescSetNetworkParam → ToCardCtrlRbDesc
  set_raw_packet_receive_meta : ToCardCtrlRbDescSetRawPacketReceiveMeta → ToCardCtrlRbDesc
  update_error_psn_recover_point : ToCardCtrlRbDescUpdateErrPsnRecoverPoint → ToCardCtrlRbDesc

unfoldable pub set_id : ℕ → ToCardCtrlRbDesc → ToCardCtrlRbDesc
set_id id (update_mr_table desc) =
    update_mr_table (record desc { common = record desc.common { op_id = id } })
set_id id (update_page_table desc) =
    update_page_table (record desc { common = record desc.common { op_id = id } })
set_id id (qp_management desc) =
    qp_management (record desc { common = record desc.common { op_id = id } })
set_id id (set_network_param desc) =
    set_network_param (record desc { common = record desc.common { op_id = id } })
set_id id (set_raw_packet_receive_meta desc) =
    set_raw_packet_receive_meta (record desc { common = record desc.common { op_id = id } })
set_id id (update_error_psn_recover_point desc) =
    update_error_psn_recover_point (record desc { common = record desc.common { op_id = id } })

abbrev pub id_of : ToCardCtrlRbDesc → ℕ
id_of (update_mr_table desc) = desc.common.op_id
id_of (update_page_table desc) = desc.common.op_id
id_of (qp_management desc) = desc.common.op_id
id_of (set_network_param desc) = desc.common.op_id
id_of (set_raw_packet_receive_meta desc) = desc.common.op_id
id_of (update_error_psn_recover_point desc) = desc.common.op_id

-- `set_id` sets the identifier of every kind of request and nothing else: the identifier is then the
-- given one, and setting the old one again gives the old request back.
pub id_of-set_id :
    (id : ℕ) (desc : ToCardCtrlRbDesc)
    → (id_of (set_id id desc) ≡ id) × (set_id (id_of desc) (set_id id desc) ≡ desc)
unfolding set_id
id_of-set_id id (update_mr_table desc) = (refl, refl)
id_of-set_id id (update_page_table desc) = (refl, refl)
id_of-set_id id (qp_management desc) = (refl, refl)
id_of-set_id id (set_network_param desc) = (refl, refl)
id_of-set_id id (set_raw_packet_receive_meta desc) = (refl, refl)
id_of-set_id id (update_error_psn_recover_point desc) = (refl, refl)
