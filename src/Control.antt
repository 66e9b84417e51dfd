-- ===== src/Control.antt =====
-- Control requests: get_ctrl_op_id, do_ctrl_op and send_ctrl_desc of rust_driver/src/lib.rs, and the
-- answers to them, rust_driver/src/ctrl_poller.rs. The map of contexts is an association list; what a
-- handler is called with, which thread is woken and what is logged are results.
pub mod Answer
mod Tests
use dtld_rdma_driver.Base.{
  ℕ, ◌+◌, ◌++◌, Bool, true, false, Option, some, none, List, [], ◌∷◌, u32, Result, ok, err,
  if◌then◌else◌,
}
use dtld_rdma_driver.Device.Ctrl.{ToCardCtrlRbDesc, set_id}
use dtld_rdma_driver.Device.Report.{ToHostCtrlRbDescCommon, CtrlRbDescOpcode}
use dtld_rdma_driver.Device.Report
use dtld_rdma_driver.Checker.Contexts.{lookup, put}
use dtld_rdma_driver.OpCtx.{
  OpCtx, CtxError, new_running, set_payload, set_finished, take_handler, set_handler,
}
use dtld_rdma_driver.Requests.{RequestError, device_busy, create_op_ctx_failed, is_some}

-- The fields of `DeviceInner` that control requests use, and what the card's ring has taken.
pub record CtrlState (H : Type 0) : Type 0 where
  pub next_ctrl_op_id : ℕ
  pub ctrl_op_ctx_map : List (ℕ × OpCtx Bool H)
  pub pushed : List ToCardCtrlRbDesc

-- What an answer brings about besides the contexts.
pub data CtrlEffect (H : Type 0) : Type 0 where
  handler_called : H → Bool → CtrlEffect H
  unparked : ℕ → CtrlEffect H
  logged : CtrlEffect H

abbrev pub is_recover_point : CtrlRbDescOpcode → Bool
is_recover_point Report.update_error_psn_recover_point = true
is_recover_point Report.update_mr_table = false
is_recover_point Report.update_page_table = false
is_recover_point Report.qp_management = false
is_recover_point Report.set_network_param = false
is_recover_point Report.set_raw_packet_receive_meta = false

module _ {H : Type 0} where
  unfoldable pub get_ctrl_op_id : CtrlState H → ℕ × CtrlState H
  get_ctrl_op_id s = (s.next_ctrl_op_id, record s { next_ctrl_op_id = u32 (s.next_ctrl_op_id + 1) })

  -- `insert` of a new context. The number of the context stands for the context.
  abbrev pub insert_running : ℕ → CtrlState H → Result ℕ RequestError × CtrlState H
  insert_running id s =
      let s' = record s { ctrl_op_ctx_map = put id new_running s.ctrl_op_ctx_map } in
      if is_some (lookup id s.ctrl_op_ctx_map) then (err create_op_ctx_failed, s') else (ok id, s')

  -- The context is entered before the descriptor is pushed.
  unfoldable pub do_ctrl_op :
      Bool → ℕ → ToCardCtrlRbDesc → CtrlState H → Result ℕ RequestError × CtrlState H
  do_ctrl_op taken id desc s =
      let (entered, s') = insert_running id s in
      elim entered [
        | err e ↦ (err e, s')
        | ok i ↦
            if taken then (ok i, record s' { pushed = desc ∷ s'.pushed }) else (err device_busy, s')
      ]

  -- The context is entered after the descriptor is pushed.
  unfoldable pub send_ctrl_desc :
      Bool → ToCardCtrlRbDesc → CtrlState H → Result ℕ RequestError × CtrlState H
  send_ctrl_desc taken desc s =
      let (id, s') = get_ctrl_op_id s in
      if taken
      then insert_running id (record s' { pushed = set_id id desc ∷ s'.pushed })
      else (err device_busy, s')

  -- `set_handler` on the context that a call returned.
  unfoldable pub set_handler_of : ℕ → H → CtrlState H → CtrlState H
  set_handler_of id h s = elim (lookup id s.ctrl_op_ctx_map) [
    | none ↦ s
    | some ctx ↦ record s { ctrl_op_ctx_map = put id (set_handler h ctx) s.ctrl_op_ctx_map }
  ]

  abbrev pub call_handler : Option H → Bool → List (CtrlEffect H)
  call_handler none success = []
  call_handler (some h) success = handler_called h success ∷ []

  abbrev pub woken_by : Option ℕ → List (CtrlEffect H)
  woken_by none = []
  woken_by (some thread) = unparked thread ∷ []

  -- `take_handler`, the call of the handler, and `set_result`.
  abbrev pub finish : Bool → OpCtx Bool H → List (CtrlEffect H) × OpCtx Bool H
  finish success ctx =
      let (handler, c) = take_handler ctx in
      elim (set_payload success c) [
        | err _ ↦ (call_handler handler success ++ logged ∷ [], c)
        | ok c' ↦
            let (thread, c'') = set_finished c' in
            (call_handler handler success ++ woken_by thread, c'')
      ]

  unfoldable pub handle_ctrl_desc_resp :
      ToHostCtrlRbDescCommon → CtrlState H → List (CtrlEffect H) × CtrlState H
  handle_ctrl_desc_resp common s = elim (lookup common.op_id s.ctrl_op_ctx_map) [
    | none ↦ (logged ∷ [], s)
    | some ctx ↦
        let (effects, ctx') = finish common.is_success ctx in
        (effects, record s { ctrl_op_ctx_map = put common.op_id ctx' s.ctrl_op_ctx_map })
  ]

  -- A turn of `poll_ctrl_thread`.
  unfoldable pub poll_ctrl :
      ToHostCtrlRbDescCommon → CtrlState H → List (CtrlEffect H) × CtrlState H
  poll_ctrl common s =
      if is_recover_point common.opcode then ([], s) else handle_ctrl_desc_resp common s
