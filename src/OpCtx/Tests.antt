-- ===== src/OpCtx/Tests.antt =====
-- Threads that wait for one operation.
use dtld_rdma_driver.Base.{◌≡◌, refl, Bool, true, false, some, List, [], ◌∷◌}
use dtld_rdma_driver.OpCtx.{
  finished, is_running, new_running, wait, set_payload, set_finished, get_result,
}
use dtld_rdma_driver.OpCtx.Steps.{
  parking, returned, Event, begins_wait, parks, sets_payload, sets_finished, World, start, step,
  run,
}
use dtld_rdma_driver.OpCtx.Waiting.{run-returned}

abbrev history : List (Event Bool)
history = begins_wait 7 ∷ sets_payload true ∷ sets_finished ∷ []

abbrev world : World Bool Bool
world = run history start

no_longer_runs : is_running world.ctx.status ≡ false
unfolding step new_running wait set_payload set_finished
no_longer_runs = refl

still_parks : world.phase 7 ≡ parking
unfolding step new_running wait set_payload set_finished
still_parks = refl

run-returned_example :
    ((step (parks 7) world).phase 7 ≡ returned)
    × (world.ctx.status ≡ finished → (r : Bool) × (get_result world.ctx ≡ some r))
run-returned_example = run-returned Bool 7 history (refl, (tt, (tt, tt))) no_longer_runs still_parks

-- A second thread that waits takes the place of the first, which is not woken.
abbrev two_waiters : World Bool Bool
two_waiters =
    run (begins_wait 1 ∷ begins_wait 2 ∷ sets_payload true ∷ sets_finished ∷ parks 1 ∷ parks 2 ∷ [])
      start

first_waits_on : (two_waiters.phase 1 ≡ parking) × (two_waiters.phase 2 ≡ returned)
unfolding step new_running wait set_payload set_finished
first_waits_on = (refl, refl)
