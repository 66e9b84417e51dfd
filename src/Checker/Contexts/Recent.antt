-- ===== src/Checker/Contexts/Recent.antt =====
-- What is remembered of recent messages.
use dtld_rdma_driver.Base.{
  ℕ, zero, suc, ap, get_or, ◌%◌, ◌^◌, ◌≡◌, refl, sym, inl, inr, length, length-set, List, [], ◌∷◌,
  ◌∙◌, get_or-set_self, get_or-set_ne, ◌==◌, ltb, if◌then◌else◌, ==_iff, ==_false, Bool-cases,
  arith,
}
use dtld_rdma_driver.Types.Psn.{IsPsn, larger_in_psn, wrapping_sub}
use dtld_rdma_driver.Types.Psn.Order.{wrapping_sub_lem}
use dtld_rdma_driver.Checker.Contexts.{
  PerQpContextMap, new, repeated, RecentQpMsnStatus, no_exist, processing, finished, unknown,
  status_of, query_recent_msn_status, set_recent_msn_status, update_largest_psn_recved,
}

-- What a slot that was set for one message says of another message of the same slot.
abbrev said_of_others : RecentQpMsnStatus → RecentQpMsnStatus
said_of_others no_exist = no_exist
said_of_others processing = processing
said_of_others finished = no_exist
said_of_others unknown = unknown

-- What is remembered of a message after a history of statuses, the latest first: of the messages
-- with the same number modulo 16, the latest counts.
abbrev pub remembered : ℕ → List (ℕ × RecentQpMsnStatus) → RecentQpMsnStatus
remembered msn [] = no_exist
remembered msn ((set_msn, status) ∷ earlier) =
    let before = remembered msn earlier in
    if msn % 16 == set_msn % 16
    then if msn == set_msn then status else said_of_others status
    else before

-- The statuses of a history set one after the other.
abbrev pub recorded : List (ℕ × RecentQpMsnStatus) → PerQpContextMap → PerQpContextMap
recorded [] m = m
recorded ((msn, status) ∷ earlier) m = set_recent_msn_status msn status (recorded earlier m)

query_recent_msn_status-set_recent_msn_status :
    (msn other : ℕ) (status : RecentQpMsnStatus) (m : PerQpContextMap)
    → length m.recent_msn_finished ≡ 16
    → query_recent_msn_status other (set_recent_msn_status msn status m) ≡ (
        if other % 16 == msn % 16
        then status_of other (msn, status)
        else query_recent_msn_status other m)
unfolding query_recent_msn_status set_recent_msn_status
query_recent_msn_status-set_recent_msn_status msn other status m h =
    elim (Bool-cases (other % 16 == msn % 16)) [
      | inl e ↦
          rw
            (
              e,
              (==_iff (other % 16) (msn % 16)).0 e,
              get_or-set_self m.recent_msn_finished (msn % 16) (msn, status) (0, no_exist)
                  (omega (arith, h)),
            )
            refl
      | inr e ↦
          rw
            (
              e,
              get_or-set_ne m.recent_msn_finished (msn % 16) (other % 16) (msn, status)
                  (0, no_exist) (λ s. ==_false (other % 16) (msn % 16) e (sym s)),
            )
            refl
    ]

status_of-said :
    (msn other : ℕ) (status : RecentQpMsnStatus)
    → status_of other (msn, status) ≡ (if other == msn then status else said_of_others status)
status_of-said msn other no_exist = ground arith
status_of-said msn other processing = ground arith
status_of-said msn other finished = ground arith
status_of-said msn other unknown = ground arith

length-recorded :
    (history : List (ℕ × RecentQpMsnStatus)) (largest : ℕ)
    → length (recorded history (new largest)).recent_msn_finished ≡ 16
unfolding new set_recent_msn_status
length-recorded [] largest = refl
length-recorded ((msn, status) ∷ earlier) largest =
    length-set (recorded earlier (new largest)).recent_msn_finished (msn % 16) (msn, status)
    ∙ length-recorded earlier largest

get_or-repeated {ℓ} : {A : Type ℓ} (n i : ℕ) (a : A) → get_or (repeated n a) i a ≡ a
get_or-repeated zero i a = refl
get_or-repeated (suc n) zero a = refl
get_or-repeated (suc n) (suc i) a = get_or-repeated n i a

query-new : (msn largest : ℕ) → query_recent_msn_status msn (new largest) ≡ no_exist
unfolding query_recent_msn_status new
query-new msn largest = ap (status_of msn) (get_or-repeated 16 (msn % 16) (0, no_exist))

-- Whatever statuses a queue pair's context was given since it was made, it remembers of each message
-- exactly this: the status that was set last among the messages with the same number modulo 16, if
-- that was the message's own; if it was another message's, then `no_exist` where that one is finished
-- and else the other's status; and `no_exist` where none was set.
pub query_recent_msn_status-remembered :
    (msn largest : ℕ) (history : List (ℕ × RecentQpMsnStatus))
    → query_recent_msn_status msn (recorded history (new largest)) ≡ remembered msn history
query_recent_msn_status-remembered msn largest [] = query-new msn largest
query_recent_msn_status-remembered msn largest ((set_msn, status) ∷ earlier) =
    query_recent_msn_status-set_recent_msn_status set_msn msn status
      (recorded earlier (new largest)) (length-recorded earlier largest)
    ∙ rw (status_of-said set_msn msn status, query_recent_msn_status-remembered msn largest earlier)
        refl

-- The largest PSN moves on to a received one that is less than half the circle ahead of it, and
-- stays where it is for any other.
pub update_largest_psn_recved_lem :
    (psn : ℕ) (m : PerQpContextMap)
    → IsPsn psn
    → IsPsn m.largest_psn_recved
    → let d = wrapping_sub psn m.largest_psn_recved in
      wrapping_sub (update_largest_psn_recved psn m).largest_psn_recved m.largest_psn_recved
      ≡ (if ltb d (2 ^ 23) then d else 0)
unfolding update_largest_psn_recved larger_in_psn
update_largest_psn_recved_lem psn m a b = ground (
  arith,
  wrapping_sub_lem psn m.largest_psn_recved a,
  wrapping_sub_lem m.largest_psn_recved psn b,
  wrapping_sub_lem m.largest_psn_recved m.largest_psn_recved b,
)
