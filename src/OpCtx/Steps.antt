-- ===== src/OpCtx/Steps.antt =====
-- Threads that use one context, in any order. A thread that waits parks after it has given the lock
-- back; `unpark` leaves a token that the next `park` takes, and `park` may also return without
-- one, as the standard library says.
use dtld_rdma_driver.Base.{
  ℕ, ◌+◌, ◌-◌, Bool, true, false, Option, some, none, List, [], ◌∷◌, Result, ok, err, ◌==◌,
  if◌then◌else◌, ltb,
}
use dtld_rdma_driver.OpCtx.{
  OpCtx, CtxError, new_running, wait, set_error, set_payload, set_finished,
}

-- Where a thread is: outside of `wait`, or between the lock and the end of `park`, or back from `wait`.
pub data Phase : Type 0 where
  outside parking returned : Phase

pub data Event (P : Type 0) : Type 0 where
  begins_wait parks wakes_without_cause : ℕ → Event P
  sets_payload : P → Event P
  sets_finished : Event P
  sets_error : ℕ → Event P

-- `pending` counts the calls of `set_result` between their two parts.
pub record World (P H : Type 0) : Type 0 where
  pub ctx : OpCtx P H
  pub phase : ℕ → Phase
  pub token : ℕ → Bool
  pub pending : ℕ

abbrev pub at_thread {ℓ} : {A : Type ℓ} → ℕ → A → (ℕ → A) → ℕ → A
at_thread t v f u = if t == u then v else f u

abbrev pub unpark : Option ℕ → (ℕ → Bool) → ℕ → Bool
unpark none token = token
unpark (some t) token = at_thread t true token

abbrev pub phase_after : Bool → Phase
phase_after true = parking
phase_after false = returned

module _ {P H : Type 0} where
  abbrev pub start : World P H
  start = record { ctx = new_running; phase = λ _. outside; token = λ _. false; pending = 0 }

  -- A thread that is in `wait` does not begin another one.
  abbrev pub begin_wait : Phase → ℕ → World P H → World P H
  begin_wait parking t w = w
  begin_wait outside t w =
      let (to_park, c) = wait t w.ctx in
      record w { ctx = c; phase = at_thread t (phase_after to_park) w.phase }
  begin_wait returned t w =
      let (to_park, c) = wait t w.ctx in
      record w { ctx = c; phase = at_thread t (phase_after to_park) w.phase }

  abbrev pub park : Phase → Bool → ℕ → World P H → World P H
  park parking true t w = record w {
    phase = at_thread t returned w.phase;
    token = at_thread t false w.token;
  }
  park parking false t w = w
  park outside has t w = w
  park returned has t w = w

  abbrev pub wake : Phase → ℕ → World P H → World P H
  wake parking t w = record w { phase = at_thread t returned w.phase }
  wake outside t w = w
  wake returned t w = w

  abbrev pub publish : Result (OpCtx P H) CtxError → World P H → World P H
  publish (ok c) w = record w { ctx = c; pending = w.pending + 1 }
  publish (err _) w = w

  unfoldable pub step : Event P → World P H → World P H
  step (begins_wait t) w = begin_wait (w.phase t) t w
  step (parks t) w = park (w.phase t) (w.token t) t w
  step (wakes_without_cause t) w = wake (w.phase t) t w
  step (sets_payload r) w = publish (set_payload r w.ctx) w
  step sets_finished w =
      let (woken, c) = set_finished w.ctx in
      if ltb 0 w.pending
      then record w { ctx = c; token = unpark woken w.token; pending = w.pending - 1 }
      else w
  step (sets_error cause) w =
      let (woken, c) = set_error cause w.ctx in record w { ctx = c; token = unpark woken w.token }

  abbrev pub run : List (Event P) → World P H → World P H
  run [] w = w
  run (e ∷ es) w = run es (step e w)
