-- ===== src/Control/Answer.antt =====
-- A control request from the driver to the card in software and back.
use dtld_rdma_driver.Base.{
  ℕ, ◌≡◌, refl, sym, ap, subst, ◌∙◌, Bool, true, false, some, none, List, [], ◌∷◌, if◌then◌else◌,
}
use dtld_rdma_driver.Device.Ctrl.{
  ToCardCtrlRbDesc, update_mr_table, update_page_table, qp_management, set_network_param,
  set_raw_packet_receive_meta, update_error_psn_recover_point, set_id,
}
use dtld_rdma_driver.Device.Report.{ToHostCtrlRbDescCommon}
use dtld_rdma_driver.Checker.Contexts.{lookup, put}
use dtld_rdma_driver.Checker.Contexts.Lookup.{lookup-put}
use dtld_rdma_driver.OpCtx.{
  OpCtx, running, finished, new_running, set_handler, take_handler, set_payload, set_finished,
}
use dtld_rdma_driver.Software.Memory.{Tables, update, to_host_ctrl_opcode}
use dtld_rdma_driver.Control.{
  CtrlState, CtrlEffect, handler_called, get_ctrl_op_id, send_ctrl_desc, set_handler_of,
  handle_ctrl_desc_resp, is_recover_point, poll_ctrl,
}

-- The request that the checker makes when a queue pair recovers from lost packets.
abbrev pub is_recovery : ToCardCtrlRbDesc → Bool
is_recovery (update_mr_table _) = false
is_recovery (update_page_table _) = false
is_recovery (qp_management _) = false
is_recovery (set_network_param _) = false
is_recovery (set_raw_packet_receive_meta _) = false
is_recovery (update_error_psn_recover_point _) = true

-- The card in software answers under the request's identifier and kind.
update-set_id :
    (id : ℕ) (desc : ToCardCtrlRbDesc) (t : Tables)
    → ((update (set_id id desc) t).0.op_id ≡ id)
      × (is_recover_point (update (set_id id desc) t).0.opcode ≡ is_recovery desc)
unfolding update set_id to_host_ctrl_opcode
update-set_id id (update_mr_table _) t = (refl, refl)
update-set_id id (update_page_table _) t = (refl, refl)
update-set_id id (qp_management _) t = (refl, refl)
update-set_id id (set_network_param _) t = (refl, refl)
update-set_id id (set_raw_packet_receive_meta _) t = (refl, refl)
update-set_id id (update_error_psn_recover_point _) t = (refl, refl)

module _ {H : Type 0} where
  -- The context of a request that waits for its answer with a handler, and that of an answered one.
  abbrev pub waiting : H → OpCtx Bool H
  waiting h = record { thread = none; status = running; payload = none; handler = some h }

  abbrev pub answered : Bool → OpCtx Bool H
  answered success = record {
    thread = none;
    status = finished;
    payload = some success;
    handler = none;
  }

  sent_map :
      (desc : ToCardCtrlRbDesc) (s : CtrlState H)
      → lookup s.next_ctrl_op_id s.ctrl_op_ctx_map ≡ none
      → (send_ctrl_desc true desc s).1.ctrl_op_ctx_map
        ≡ put s.next_ctrl_op_id new_running s.ctrl_op_ctx_map
  unfolding send_ctrl_desc get_ctrl_op_id
  sent_map desc s free = rw free refl

  handler_map :
      (id : ℕ) (h : H) (s : CtrlState H) (ctx : OpCtx Bool H)
      → lookup id s.ctrl_op_ctx_map ≡ some ctx
      → (set_handler_of id h s).ctrl_op_ctx_map ≡ put id (set_handler h ctx) s.ctrl_op_ctx_map
  unfolding set_handler_of
  handler_map id h s ctx found = rw (found, set_handler_of) refl

  registered :
      (desc : ToCardCtrlRbDesc) (h : H) (s : CtrlState H)
      → lookup s.next_ctrl_op_id s.ctrl_op_ctx_map ≡ none
      → lookup s.next_ctrl_op_id
          (set_handler_of s.next_ctrl_op_id h (send_ctrl_desc true desc s).1).ctrl_op_ctx_map
        ≡ some (waiting h)
  unfolding new_running set_handler
  registered desc h s free =
      let id = s.next_ctrl_op_id in
      let s' : CtrlState H = (send_ctrl_desc true desc s).1 in
      let entered =
        ap (lookup id) (sent_map desc s free) ∙ lookup-put id new_running s.ctrl_op_ctx_map in
      ap (lookup id) (handler_map id h s' new_running entered)
      ∙ lookup-put id (set_handler h new_running) s'.ctrl_op_ctx_map

  handled :
      (common : ToHostCtrlRbDescCommon) (h : H) (s : CtrlState H)
      → lookup common.op_id s.ctrl_op_ctx_map ≡ some (waiting h)
      → handle_ctrl_desc_resp common s ≡ (
        handler_called h common.is_success ∷ [],
        record s {
          ctrl_op_ctx_map = put common.op_id (answered common.is_success) s.ctrl_op_ctx_map;
        },
      )
  unfolding handle_ctrl_desc_resp take_handler set_payload set_finished
  handled common h s found = rw (found, handle_ctrl_desc_resp) refl

  -- What the poller makes of an answer.
  abbrev pub Polled : H → Bool → ToHostCtrlRbDescCommon → List (CtrlEffect H) × CtrlState H → Type 0
  Polled h skips common (effects, s) =
      (effects ≡ (if skips then [] else handler_called h common.is_success ∷ []))
      × (lookup common.op_id s.ctrl_op_ctx_map
          ≡ some (if skips then waiting h else answered common.is_success))

  polled :
      (skips : Bool) (common : ToHostCtrlRbDescCommon) (h : H) (s : CtrlState H)
      → lookup common.op_id s.ctrl_op_ctx_map ≡ some (waiting h)
      → is_recover_point common.opcode ≡ skips
      → Polled h skips common (poll_ctrl common s)
  unfolding poll_ctrl
  polled true common h s found e = rw e (refl, found)
  polled false common h s found e = rw e (
      subst (Polled h false common) (sym (handled common h s found))
        (refl, lookup-put common.op_id (answered common.is_success) s.ctrl_op_ctx_map))

-- A control request that the ring takes, under an identifier that no request waits under, goes to
-- the card in software and back: the answer has the request's identifier, and when the poller takes
-- it, the request's handler is called with the outcome and its context is finished with it. Of the
-- request that ends the recovery of a queue pair the poller drops the answer: the handler is not
-- called, and the context keeps waiting with it.
pub send_ctrl_desc-poll_ctrl :
    {H : Type 0} (desc : ToCardCtrlRbDesc) (h : H) (s : CtrlState H) (t : Tables)
    → lookup s.next_ctrl_op_id s.ctrl_op_ctx_map ≡ none
    → let id = s.next_ctrl_op_id in
      let waits : CtrlState H = set_handler_of id h (send_ctrl_desc true desc s).1 in
      let answer : ToHostCtrlRbDescCommon = (update (set_id id desc) t).0 in
      ((send_ctrl_desc true desc s).1.pushed ≡ set_id id desc ∷ s.pushed)
      × (answer.op_id ≡ id)
      × Polled h (is_recovery desc) answer (poll_ctrl answer waits)
unfolding send_ctrl_desc get_ctrl_op_id
send_ctrl_desc-poll_ctrl desc h s t free =
    let id = s.next_ctrl_op_id in
    let (same_id, skips) = update-set_id id desc t in
    (
      rw free refl,
      same_id,
      polled (is_recovery desc) (update (set_id id desc) t).0 h _
          (ap
              (λ (n : ℕ).
                lookup n (set_handler_of id h (send_ctrl_desc true desc s).1).ctrl_op_ctx_map)
              same_id
            ∙ registered desc h s free)
          skips,
    )
