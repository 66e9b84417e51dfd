-- ===== src/Checker/Handler.antt =====
-- `PacketCheckerContext` of rust_driver/src/checker.rs: what the checker does with each packet that
-- the card reports. What it asks of the other parts (the sender of descriptors, the retry map, the
-- operation contexts) is a list of effects, in order; a panic is `none`.
pub mod Normal
mod Tests
use dtld_rdma_driver.Base.{
  ℕ, ◌-◌, Bool, true, false, not, ◌&&◌, Option, some, none, List, [], ◌∷◌, ◌++◌, map, length, ltb,
  leb, ◌==◌, if◌then◌else◌,
}
use dtld_rdma_driver.Types.{Pmtu}
use dtld_rdma_driver.Types.Psn.{wrapping_add, wrapping_sub}
use dtld_rdma_driver.Device.Work.{
  ToHostWorkRbDescWriteType, ToHostWorkRbDescWriteOrReadResp, ToHostWorkRbDescAck,
  ToHostWorkRbDescRead, ToHostWorkRbDescAethCode, first, middle, last, only, ack, rnr, rsvd, nak,
}
use dtld_rdma_driver.Checker.Window.{
  SlidingWindow, insert, is_complete, last_psn, try_get_recover_psn, get_recent_gap,
  get_continous_range,
}
use dtld_rdma_driver.Checker.Contexts.{
  lookup, put, RecvContext, PerQpContextMap, RecvContextMap, RecentQpMsnStatus, no_exist,
  processing, finished, unknown, from_event, new_with_recvmap, create_map_on_psn, insert_ctx,
  remove_ctx, get_ctx, get_or_create_per_qp_ctx, query_status, set_status,
  update_largest_psn_recved,
}

pub data Effect : Type 0 where
  wakeup_user_op_ctx : ℕ → ℕ → Effect
  send_ack : ℕ → ℕ → ℕ → Effect
  send_nack : ℕ → ℕ → ℕ → ℕ → Effect
  cancel_retry : ℕ → ℕ → Effect
  retry_range : ℕ → ℕ → ℕ → ℕ → Effect
  send_read_resp : ToHostWorkRbDescRead → Effect
  update_recover_point : ℕ → ℕ → Effect

-- What the checker reads and sets of a queue pair.
pub record Qp : Type 0 where
  pub is_normal : Bool
  pub pmtu : Pmtu

pub record State : Type 0 where
  pub recv_ctx_map : RecvContextMap
  pub qp_table : List (ℕ × Qp)
  pub effects : List Effect

unfoldable pub emit : List Effect → State → State
emit es s = record s { effects = s.effects ++ es }

-- The acknowledgement of a packet that the card does not acknowledge by itself.
abbrev pub ack_unless_auto : ToHostWorkRbDescWriteOrReadResp → List Effect
ack_unless_auto event =
    if event.can_auto_ack then [] else send_ack event.common.dqpn event.common.msn event.psn ∷ []

-- `First`: a message that is not known yet gets a context.
abbrev pub begin_message :
    ToHostWorkRbDescWriteOrReadResp → RecvContext → RecentQpMsnStatus → State → State
begin_message event ctx no_exist s = record s {
  recv_ctx_map = insert_ctx event.common.dqpn event.common.msn ctx s.recv_ctx_map;
}
begin_message event ctx processing s = s
begin_message event ctx finished s = s
begin_message event ctx unknown s = s

-- `Only`: the message is finished.
unfoldable pub finish_only : ToHostWorkRbDescWriteOrReadResp → State → State
finish_only event s =
    let qpn = event.common.dqpn in
    let msn = event.common.msn in
    let s' = record s { recv_ctx_map = set_status qpn msn finished s.recv_ctx_map } in
    emit (if event.is_read_resp then wakeup_user_op_ctx qpn msn ∷ [] else ack_unless_auto event) s'

-- The match of `handle_qp_normal` on the kind of packet.
unfoldable pub handle_by_type :
    ToHostWorkRbDescWriteType → ToHostWorkRbDescWriteOrReadResp → State → State
handle_by_type first event s =
    begin_message event (from_event event)
      (query_status event.common.dqpn event.common.msn s.recv_ctx_map) s
handle_by_type middle event s = s
handle_by_type last event s =
    let qpn = event.common.dqpn in
    let msn = event.common.msn in
    emit
      (if event.is_read_resp
        then wakeup_user_op_ctx qpn msn ∷ []
        else ack_unless_auto event ++ cancel_retry qpn msn ∷ [])
      (record s { recv_ctx_map = remove_ctx qpn msn s.recv_ctx_map })
handle_by_type only event s = finish_only event s

unfoldable pub handle_qp_normal : ToHostWorkRbDescWriteOrReadResp → State → State
handle_qp_normal event s = handle_by_type event.write_type event s

-- The status of the queue pair, if it is in the table.
abbrev pub set_normal : ℕ → Bool → List (ℕ × Qp) → List (ℕ × Qp)
set_normal qpn b table = elim (lookup qpn table) [
  | none ↦ table
  | some qp ↦ put qpn (record qp { is_normal = b }) table
]

-- All messages of the queue pair get a window.
abbrev windows_for : ℕ → ℕ → Pmtu → PerQpContextMap → PerQpContextMap
windows_for start_psn recved_psn pmtu m = record m {
  messages = map (λ (msn, ctx). (msn, create_map_on_psn start_psn recved_psn pmtu ctx)) m.messages;
}

unfoldable pub enter_qp_error_status : ℕ → Pmtu → ℕ → ℕ → State → State
enter_qp_error_status qpn pmtu expected_psn recved_psn s =
    let contexts = get_or_create_per_qp_ctx qpn recved_psn s.recv_ctx_map in
    let start_psn = wrapping_sub expected_psn 1 in
    record s {
      qp_table = set_normal qpn false s.qp_table;
      recv_ctx_map = elim (lookup qpn contexts) [
        | none ↦ contexts
        | some m ↦ put qpn (windows_for start_psn recved_psn pmtu m) contexts
      ];
    }

-- What `check_completed_and_try_recover` reads of the message: is it a read response, is it
-- complete, its last PSN, and the PSN to recover at. None if it panics.
unfoldable pub progress_of : Option RecvContext → Option ((Bool × Bool) × (ℕ × Option ℕ))
progress_of none = some ((false, false), (0, none))
progress_of (some ctx) = elim ctx.recv_map [
  | none ↦ none
  | some w ↦ elim (try_get_recover_psn w) [
    | none ↦ none
    | some recover ↦ some ((ctx.is_read_resp, is_complete w), (last_psn w, recover))
  ]
]

-- The end of a message: its context goes, and the user or the peer is told.
unfoldable pub complete_message : ℕ → ℕ → Bool → Bool → ℕ → State → State
complete_message qpn msn is_read_resp false end_psn s = s
complete_message qpn msn is_read_resp true end_psn s =
    emit
      (if is_read_resp
        then wakeup_user_op_ctx qpn msn ∷ []
        else send_ack qpn msn end_psn ∷ cancel_retry qpn msn ∷ [])
      (record s { recv_ctx_map = remove_ctx qpn msn s.recv_ctx_map })

-- The recovery, with at most one message under way and all packets up to the largest received.
unfoldable pub recover_if : ℕ → PerQpContextMap → Option ℕ → State → State
recover_if qpn m none s = s
recover_if qpn m (some recover_psn) s =
    if leb (length m.messages) 1 && recover_psn == wrapping_add m.largest_psn_recved 1
    then emit (update_recover_point qpn recover_psn ∷ []) s
    else s

unfoldable pub check_completed_and_try_recover : ℕ → ℕ → State → Option State
check_completed_and_try_recover qpn msn s = elim (lookup qpn s.recv_ctx_map) [
  | none ↦ none
  | some m ↦ elim (progress_of (lookup msn m.messages)) [
    | none ↦ none
    | some ((is_read_resp, is_completed), (end_psn, recover_psn)) ↦
        let s' = complete_message qpn msn is_read_resp is_completed end_psn s in
        elim (lookup qpn s'.recv_ctx_map) [
          | none ↦ none
          | some m' ↦ some (recover_if qpn m' recover_psn s')
        ]
  ]
]

-- The handler that `try_recover` sets for the answer of the card.
unfoldable pub on_recovered : ℕ → Bool → State → State
on_recovered qpn is_succ s =
    if is_succ then record s { qp_table = set_normal qpn true s.qp_table } else s

abbrev pub insert_some : Option (ℕ × ℕ) → SlidingWindow → SlidingWindow
insert_some none w = w
insert_some (some (from, to)) w = insert from to w

abbrev pub store_window : ℕ → ℕ → RecvContext → SlidingWindow → RecvContextMap → RecvContextMap
store_window qpn msn ctx w contexts = elim (lookup qpn contexts) [
  | none ↦ contexts
  | some m ↦
      put qpn (record m { messages = put msn (record ctx { recv_map = some w }) m.messages })
        contexts
]

-- `Middle` and `Last` of an out-of-order queue pair, for the largest PSN received before: the
-- state, and whether to look for completion.
unfoldable pub record_packet : ℕ → ToHostWorkRbDescWriteOrReadResp → State → Option (State × Bool)
record_packet largest event s =
    let qpn = event.common.dqpn in
    let msn = event.common.msn in
    elim (get_ctx qpn msn s.recv_ctx_map) [
      | none ↦ some (s, false)
      | some ctx ↦ elim ctx.recv_map [
        | none ↦ none
        | some w ↦
            let continous = insert_some (get_continous_range largest event.common.expected_psn) w in
            let w' = insert event.psn event.psn continous in
            let s' = record s { recv_ctx_map = store_window qpn msn ctx w' s.recv_ctx_map } in
            some (
              elim (get_recent_gap w') [
                | none ↦ s'
                | some (start, end) ↦ emit (send_nack qpn msn start end ∷ []) s'
              ],
              true,
            )
      ]
    ]

abbrev update_largest : ℕ → ℕ → State → Option State
update_largest qpn psn s = elim (lookup qpn s.recv_ctx_map) [
  | none ↦ none
  | some m ↦
      some (record s { recv_ctx_map = put qpn (update_largest_psn_recved psn m) s.recv_ctx_map })
]

-- The end of `handle_qp_ooo`.
abbrev after_packet : ToHostWorkRbDescWriteOrReadResp → State × Bool → Option State
after_packet event (s, need_check) = elim (update_largest event.common.dqpn event.psn s) [
  | none ↦ none
  | some s' ↦
      if need_check
      then check_completed_and_try_recover event.common.dqpn event.common.msn s'
      else some s'
]

unfoldable pub handle_qp_ooo : ToHostWorkRbDescWriteOrReadResp → Pmtu → State → Option State
handle_qp_ooo event pmtu s =
    let qpn = event.common.dqpn in
    let msn = event.common.msn in
    elim (lookup qpn s.recv_ctx_map) [
      | none ↦ none
      | some m ↦
          elim (elim event.write_type as (λ _. Option (State × Bool)) [
            | first ↦ some (
              begin_message event (new_with_recvmap event pmtu)
                  (query_status qpn msn s.recv_ctx_map) s,
              false,
            )
            | middle ↦ record_packet m.largest_psn_recved event s
            | last ↦ record_packet m.largest_psn_recved event s
            | only ↦ some (finish_only event s, false)
          ]) [ none ↦ none | some r ↦ after_packet event r ]
    ]

unfoldable pub handle_write : ToHostWorkRbDescWriteOrReadResp → State → Option State
handle_write event s =
    let qpn = event.common.dqpn in
    let expected_psn = event.common.expected_psn in
    let psn = event.psn in
    elim (lookup qpn s.qp_table) [
      | none ↦ some s
      | some qp ↦
          let enter_error = not (expected_psn == psn) in
          if qp.is_normal
          then if enter_error
            then handle_qp_ooo event qp.pmtu (enter_qp_error_status qpn qp.pmtu expected_psn psn s)
            else some (handle_qp_normal event s)
          else handle_qp_ooo event qp.pmtu s
    ]

pub data PacketCheckEvent : Type 0 where
  write : ToHostWorkRbDescWriteOrReadResp → PacketCheckEvent
  acked : ToHostWorkRbDescAck → PacketCheckEvent
  read_req : ToHostWorkRbDescRead → PacketCheckEvent

abbrev ack_effects : ToHostWorkRbDescAck → ToHostWorkRbDescAethCode → List Effect
ack_effects event ack = wakeup_user_op_ctx event.common.dqpn event.msn ∷ []
ack_effects event nak =
    retry_range event.common.dqpn event.msn event.psn event.common.expected_psn ∷ []
ack_effects event rnr = []
ack_effects event rsvd = []

unfoldable pub handle_check_event : PacketCheckEvent → State → Option State
handle_check_event (write event) s = handle_write event s
handle_check_event (read_req event) s =
    let s' = record s {
      recv_ctx_map = set_status event.common.dqpn event.common.msn finished s.recv_ctx_map;
    } in
    some (emit (send_read_resp event ∷ []) s')
handle_check_event (acked event) s = some (emit (ack_effects event event.code) s)
