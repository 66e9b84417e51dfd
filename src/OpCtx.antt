-- ===== src/OpCtx.antt =====
-- The contexts of operations, rust_driver/src/op_ctx.rs. The locks are taken for one call each, so
-- that a call is a function of the context, and where a call goes on after it has given the lock
-- back it is two functions. A thread is its number; a thread that is to be woken is a result.
pub mod Steps
pub mod Waiting
mod Tests
use dtld_rdma_driver.Base.{ℕ, Bool, true, false, Option, some, none, Result, ok, err, if◌then◌else◌}

pub data CtxStatus : Type 0 where
  invalid running finished : CtxStatus
  failed : ℕ → CtxStatus

pub data CtxError : Type 0 where
  set_ctx_result_failed : CtxError
  device : ℕ → CtxError

-- `OpCtxWrapper` and `OpCtxInner`: the thread that waits, the status, the result and what to call
-- with it. The cause of a failure, a string, is a number.
pub record OpCtx (P H : Type 0) : Type 0 where
  pub thread : Option ℕ
  pub status : CtxStatus
  pub payload : Option P
  pub handler : Option H

abbrev pub is_running : CtxStatus → Bool
is_running invalid = false
is_running running = true
is_running finished = false
is_running (failed _) = false

abbrev pub is_set : {P : Type 0} → Option P → Bool
is_set none = false
is_set (some _) = true

module _ {P H : Type 0} where
  unfoldable pub new_running : OpCtx P H
  new_running = record { thread = none; status = running; payload = none; handler = none }

  -- The part of `wait` under the lock: whether the thread is to park, and the context.
  unfoldable pub wait : ℕ → OpCtx P H → Bool × OpCtx P H
  wait current c =
      if is_running c.status then (true, record c { thread = some current }) else (false, c)

  -- The thread to wake, and the context.
  unfoldable pub set_error : ℕ → OpCtx P H → Option ℕ × OpCtx P H
  set_error cause c = (c.thread, record c { status = failed cause; thread = none })

  -- The first part of `set_result`, the cell that is set once.
  unfoldable pub set_payload : P → OpCtx P H → Result (OpCtx P H) CtxError
  set_payload result c =
      if is_set c.payload
      then err set_ctx_result_failed
      else ok (record c { payload = some result })

  -- The second part of `set_result`, under the lock.
  unfoldable pub set_finished : OpCtx P H → Option ℕ × OpCtx P H
  set_finished c = (c.thread, record c { status = finished; thread = none })

  unfoldable pub get_result : OpCtx P H → Option P
  get_result c = c.payload

  -- What `wait_result` does after the wait.
  unfoldable pub wait_result : OpCtx P H → Result (Option P) CtxError
  wait_result c = elim c.status [
    | failed reason ↦ err (device reason)
    | invalid ↦ ok c.payload
    | running ↦ ok c.payload
    | finished ↦ ok c.payload
  ]

  unfoldable pub set_handler : H → OpCtx P H → OpCtx P H
  set_handler handler c = record c { handler = some handler }

  unfoldable pub take_handler : OpCtx P H → Option H × OpCtx P H
  take_handler c = (c.handler, record c { handler = none })
