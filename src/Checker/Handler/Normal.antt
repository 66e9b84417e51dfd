-- ===== src/Checker/Handler/Normal.antt =====
-- A queue pair whose packets arrive in order.
use dtld_rdma_driver.Base.{
  ℕ, ◌≡◌, refl, sym, ap, ◌∙◌, Bool, true, false, not, ◌&&◌, Option, some, none, List, [], ◌∷◌, ◌++◌,
  if◌then◌else◌, ==_iff, All,
}
use mathlib.Core.List.{append_assoc, append-nil}
use dtld_rdma_driver.Device.Work.{
  ToHostWorkRbDescWriteType, ToHostWorkRbDescWriteOrReadResp, first, middle, last, only,
}
use dtld_rdma_driver.Checker.Contexts.{
  lookup, RecvContext, RecentQpMsnStatus, no_exist, processing, finished, unknown, query_status,
  from_event, get_ctx,
}
use dtld_rdma_driver.Checker.Contexts.Lookup.{
  get_ctx-insert_ctx, get_ctx-remove_ctx, get_ctx-set_status,
}
use dtld_rdma_driver.Checker.Handler.{
  Effect, wakeup_user_op_ctx, send_ack, cancel_retry, Qp, State, emit, begin_message, finish_only,
  handle_by_type, handle_qp_normal, handle_write,
}

-- The packets that end a message, and those that end one of several packets.
abbrev pub ends : ToHostWorkRbDescWriteType → Bool
ends first = false
ends middle = false
ends last = true
ends only = true

abbrev pub ends_several : ToHostWorkRbDescWriteType → Bool
ends_several first = false
ends_several middle = false
ends_several last = true
ends_several only = false

abbrev pub when : Bool → Effect → List Effect
when true e = e ∷ []
when false e = []

-- What the user and the peer are to be told of a packet in order: at the end of an answer to a read
-- the user that waits for it is woken up; the end of a write is acknowledged with the PSN of its last
-- packet, unless the card does that; and the end of a write of several packets takes its retry back.
abbrev pub answers_by : ToHostWorkRbDescWriteType → ToHostWorkRbDescWriteOrReadResp → List Effect
answers_by t event =
    let qpn = event.common.dqpn in
    let msn = event.common.msn in
    when (ends t && event.is_read_resp) (wakeup_user_op_ctx qpn msn)
    ++ when (ends t && not event.is_read_resp && not event.can_auto_ack)
        (send_ack qpn msn event.psn)
    ++ when (ends_several t && not event.is_read_resp) (cancel_retry qpn msn)

abbrev pub answers : ToHostWorkRbDescWriteOrReadResp → List Effect
answers event = answers_by event.write_type event

abbrev pub all_answers : List ToHostWorkRbDescWriteOrReadResp → List Effect
all_answers [] = []
all_answers (event ∷ events) = answers event ++ all_answers events

-- The checker's loop over the packets that the card reports.
abbrev pub handle_writes : List ToHostWorkRbDescWriteOrReadResp → State → Option State
handle_writes [] s = some s
handle_writes (event ∷ events) s = elim (handle_write event s) [
  | none ↦ none
  | some s' ↦ handle_writes events s'
]

-- A packet of a queue pair in its normal status, with the PSN that the card expected.
abbrev pub InOrder : List (ℕ × Qp) → ToHostWorkRbDescWriteOrReadResp → Type 0
InOrder table event =
    (qp : Qp) × (lookup event.common.dqpn table ≡ some qp)
    × (qp.is_normal ≡ true)
    × (event.common.expected_psn ≡ event.psn)

-- The context of a packet's message after the packet, from what was remembered of the message and the
-- context before: a first packet of a message that is not known begins one, without a window, and a
-- last packet ends it.
abbrev pub context_after :
    ToHostWorkRbDescWriteType
    → ToHostWorkRbDescWriteOrReadResp
    → RecentQpMsnStatus
    → Option RecvContext
    → Option RecvContext
context_after first event no_exist before = some (record {
  is_read_resp = event.is_read_resp;
  start_addr = event.addr;
  len_in_bytes = event.len;
  start_psn = event.psn;
  recv_map = none;
})
context_after first event processing before = before
context_after first event finished before = before
context_after first event unknown before = before
context_after middle event status before = before
context_after last event status before = none
context_after only event status before = before

-- The contexts packet by packet.
abbrev pub Contexts : List ToHostWorkRbDescWriteOrReadResp → State → Type 0
Contexts [] s = Unit
Contexts (event ∷ events) s =
    let qpn = event.common.dqpn in
    let msn = event.common.msn in
    (s' : State) × (handle_write event s ≡ some s')
    × (get_ctx qpn msn s'.recv_ctx_map
        ≡ context_after event.write_type event (query_status qpn msn s.recv_ctx_map)
            (get_ctx qpn msn s.recv_ctx_map))
    × Contexts events s'

begin_message-keeps :
    (event : ToHostWorkRbDescWriteOrReadResp) (ctx : RecvContext) (status : RecentQpMsnStatus)
    (s : State)
    → ((begin_message event ctx status s).qp_table ≡ s.qp_table)
      × ((begin_message event ctx status s).effects ≡ s.effects)
begin_message-keeps event ctx no_exist s = (refl, refl)
begin_message-keeps event ctx processing s = (refl, refl)
begin_message-keeps event ctx finished s = (refl, refl)
begin_message-keeps event ctx unknown s = (refl, refl)

quiet : (s s' : State) → s'.effects ≡ s.effects → s'.effects ≡ s.effects ++ []
quiet s s' e = e ∙ sym (append-nil s.effects)

told_at_last :
    (resp auto : Bool) (w a c : Effect)
    → (if resp then w ∷ [] else (if auto then [] else a ∷ []) ++ c ∷ [])
      ≡ when (true && resp) w ++ when (true && not resp && not auto) a ++ when (true && not resp) c
told_at_last true auto w a c = refl
told_at_last false true w a c = refl
told_at_last false false w a c = refl

told_at_only :
    (resp auto : Bool) (w a c : Effect)
    → (if resp then w ∷ [] else if auto then [] else a ∷ [])
      ≡ when (true && resp) w ++ when (true && not resp && not auto) a ++ when (false && not resp) c
told_at_only true auto w a c = refl
told_at_only false true w a c = refl
told_at_only false false w a c = refl

handle_by_type-answers_by :
    (t : ToHostWorkRbDescWriteType) (event : ToHostWorkRbDescWriteOrReadResp) (s : State)
    → ((handle_by_type t event s).qp_table ≡ s.qp_table)
      × ((handle_by_type t event s).effects ≡ s.effects ++ answers_by t event)
unfolding handle_by_type emit finish_only
handle_by_type-answers_by first event s =
    let status = query_status event.common.dqpn event.common.msn s.recv_ctx_map in
    let (a, b) = begin_message-keeps event (from_event event) status s in
    (a, quiet s (begin_message event (from_event event) status s) b)
handle_by_type-answers_by middle event s = (refl, quiet s s refl)
handle_by_type-answers_by last event s =
    (refl, ap (λ l. s.effects ++ l) (told_at_last event.is_read_resp event.can_auto_ack _ _ _))
handle_by_type-answers_by only event s = (
  refl,
  ap (λ l. s.effects ++ l)
      (told_at_only event.is_read_resp event.can_auto_ack _ _
        (cancel_retry event.common.dqpn event.common.msn)),
)

begin_message-context_after :
    (event : ToHostWorkRbDescWriteOrReadResp) (status : RecentQpMsnStatus) (s : State)
    → get_ctx event.common.dqpn event.common.msn
        (begin_message event (from_event event) status s).recv_ctx_map
      ≡ context_after first event status (get_ctx event.common.dqpn event.common.msn s.recv_ctx_map)
unfolding from_event
begin_message-context_after event no_exist s = get_ctx-insert_ctx _ _ _ s.recv_ctx_map
begin_message-context_after event processing s = refl
begin_message-context_after event finished s = refl
begin_message-context_after event unknown s = refl

handle_by_type-context_after :
    (t : ToHostWorkRbDescWriteType) (event : ToHostWorkRbDescWriteOrReadResp) (s : State)
    → let qpn = event.common.dqpn in
      let msn = event.common.msn in
      get_ctx qpn msn (handle_by_type t event s).recv_ctx_map
      ≡ context_after t event (query_status qpn msn s.recv_ctx_map) (get_ctx qpn msn s.recv_ctx_map)
unfolding handle_by_type emit finish_only
handle_by_type-context_after first event s = begin_message-context_after event _ s
handle_by_type-context_after middle event s = refl
handle_by_type-context_after last event s = get_ctx-remove_ctx _ _ s.recv_ctx_map
handle_by_type-context_after only event s = get_ctx-set_status _ _ finished s.recv_ctx_map

InOrder-handle_write :
    (event : ToHostWorkRbDescWriteOrReadResp) (s : State)
    → InOrder s.qp_table event
    → handle_write event s ≡ some (handle_by_type event.write_type event s)
unfolding handle_write handle_qp_normal
InOrder-handle_write event s (qp, there, normal, e) =
    rw (there, normal, (==_iff event.common.expected_psn event.psn).1 e, handle_write) refl

-- While queue pairs are in the normal status and their packets arrive in order, none makes the
-- checker panic, enter the error status or send a negative acknowledgement: what is sent is, packet
-- by packet, nothing for the first and the middle packets of a message; and for its last or only one
-- the user is woken up, if it answers a read, and else the packet is acknowledged with its PSN, if
-- the card does not do that, and the retry of a message of several packets is cancelled. The first
-- packet of a message that is not remembered makes its context, with the packet's address, length and
-- PSN; a last packet takes the context away; and no other packet changes that of its message.
pub handle_writes-all_answers :
    (events : List ToHostWorkRbDescWriteOrReadResp) (s : State)
    → All (InOrder s.qp_table) events
    → (s' : State) × (handle_writes events s ≡ some s')
      × (s'.qp_table ≡ s.qp_table)
      × (s'.effects ≡ s.effects ++ all_answers events)
      × Contexts events s
handle_writes-all_answers [] s h = (s, refl, refl, quiet s s refl, tt)
handle_writes-all_answers (event ∷ events) s (h, hs) =
    let next = handle_by_type event.write_type event s in
    let (table, told) = handle_by_type-answers_by event.write_type event s in
    let (s', e, table', told', contexts) = handle_writes-all_answers events next (rw table hs) in
    (
      s',
      rw (InOrder-handle_write event s h, handle_writes) e,
      table' ∙ table,
      told'
          ∙ ap (λ l. l ++ all_answers events) told
          ∙ append_assoc s.effects (answers event) (all_answers events),
      (
        next,
        InOrder-handle_write event s h,
        handle_by_type-context_after event.write_type event s,
        contexts,
      ),
    )
