-- ===== src/Control/Tests.antt =====
-- The request at the end of a recovery, and its answer.
use dtld_rdma_driver.Base.{◌≡◌, refl, Bool, true, none, [], ◌∷◌}
use dtld_rdma_driver.Device.Ctrl.{ToCardCtrlRbDesc, update_error_psn_recover_point, set_id}
use dtld_rdma_driver.Device.Report.{ToHostCtrlRbDescCommon}
use dtld_rdma_driver.Checker.Contexts.{lookup}
use dtld_rdma_driver.Software.Memory.{Tables, update}
use dtld_rdma_driver.Control.{CtrlState, send_ctrl_desc, set_handler_of, poll_ctrl}
use dtld_rdma_driver.Control.Answer.{is_recovery, Polled, send_ctrl_desc-poll_ctrl}

abbrev recover : ToCardCtrlRbDesc
recover =
    update_error_psn_recover_point
      (record { common = record { op_id = 0 }; qpn = 9; recover_psn = 103 })

abbrev idle : CtrlState Bool
idle = record { next_ctrl_op_id = 77; ctrl_op_ctx_map = []; pushed = [] }

abbrev tables : Tables
tables = record { mr_rkey_table = []; qp_table = [] }

nobody_waits : lookup idle.next_ctrl_op_id idle.ctrl_op_ctx_map ≡ none
unfolding lookup
nobody_waits = refl

send_ctrl_desc-poll_ctrl_example :
    let waits : CtrlState Bool = set_handler_of 77 true (send_ctrl_desc true recover idle).1 in
    let answer : ToHostCtrlRbDescCommon = (update (set_id 77 recover) tables).0 in
    ((send_ctrl_desc true recover idle).1.pushed ≡ set_id 77 recover ∷ [])
    × (answer.op_id ≡ 77)
    × Polled true (is_recovery recover) answer (poll_ctrl answer waits)
send_ctrl_desc-poll_ctrl_example = send_ctrl_desc-poll_ctrl recover true idle tables nobody_waits
