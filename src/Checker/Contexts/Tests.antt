-- ===== src/Checker/Contexts/Tests.antt =====
-- Contexts at concrete messages.
use dtld_rdma_driver.Base.{◌^◌, ◌≡◌, [], ◌∷◌, ltb, if◌then◌else◌, arith}
use dtld_rdma_driver.Types.Psn.{wrapping_sub}
use dtld_rdma_driver.Checker.Contexts.{
  PerQpContextMap, new, no_recent, processing, finished, query_recent_msn_status,
  update_largest_psn_recved,
}
use dtld_rdma_driver.Checker.Contexts.Recent.{
  recorded, remembered, query_recent_msn_status-remembered, update_largest_psn_recved_lem,
}

abbrev fresh : PerQpContextMap
fresh = record { messages = []; largest_psn_recved = 16777214; recent_msn_finished = no_recent }

-- Message 5 is finished, then message 21, which has the same slot, is begun: of message 5 is said
-- that it is under way.
query_recent_msn_status-remembered_example :
    query_recent_msn_status 5 (recorded ((21, processing) ∷ (5, finished) ∷ []) (new 100))
    ≡ remembered 5 ((21, processing) ∷ (5, finished) ∷ [])
query_recent_msn_status-remembered_example =
    query_recent_msn_status-remembered 5 100 ((21, processing) ∷ (5, finished) ∷ [])

update_largest_psn_recved_lem_example :
    let d = wrapping_sub 3 fresh.largest_psn_recved in
    wrapping_sub (update_largest_psn_recved 3 fresh).largest_psn_recved fresh.largest_psn_recved
    ≡ (if ltb d (2 ^ 23) then d else 0)
update_largest_psn_recved_lem_example =
    update_largest_psn_recved_lem 3 fresh (omega arith) (omega arith)
