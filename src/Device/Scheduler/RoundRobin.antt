-- ===== src/Device/Scheduler/RoundRobin.antt =====
-- rust_driver/src/device/scheduler/round_robin.rs: one list of descriptors for each queue pair, served
-- in turns. The lock makes each of the two operations one step. A panic is `none`.
pub mod Valid
pub mod Fifo
pub mod Runs
pub mod Fair
mod Tests
use dtld_rdma_driver.Base.{
  ℕ, zero, suc, ◌-◌, Option, some, none, List, [], ◌∷◌, ◌++◌, map, length, ◌==◌, if◌then◌else◌,
}

abbrev pub pop_batch_size : ℕ
pop_batch_size = 8

module _ {ℓ} {A : Type ℓ} where
  -- The iterator's elements join the list of their queue pair, or a new list at the end.
  unfoldable pub push : ℕ → List A → List (ℕ × List A) → List (ℕ × List A)
  push qpn desc [] = (qpn, desc) ∷ []
  push qpn desc ((q, list) ∷ queue) =
      if q == qpn then (q, list ++ desc) ∷ queue else (q, list) ∷ push qpn desc queue

  -- The list of which an element was taken goes to the end, unless it is empty now.
  unfoldable pub put_back : ℕ → List A → List (ℕ × List A) → List (ℕ × List A)
  put_back q [] queue = queue
  put_back q (d ∷ list) queue = queue ++ (q, d ∷ list) ∷ []

  -- The loop, on the number of slots of the batch that are free: what goes into them, and the queue
  -- that is left. `pop_front` of an empty list panics.
  unfoldable pub pop_loop : ℕ → List (ℕ × List A) → Option (List A × List (ℕ × List A))
  pop_loop zero queue = some ([], queue)
  pop_loop (suc free) [] = some ([], [])
  pop_loop (suc free) ((q, []) ∷ queue) = none
  pop_loop (suc free) ((q, d ∷ list) ∷ queue) = elim (pop_loop free (put_back q list queue)) [
    | none ↦ none
    | some (ds, left) ↦ some (d ∷ ds, left)
  ]

  abbrev pub empty_slots : ℕ → List (Option A)
  empty_slots zero = []
  empty_slots (suc n) = none ∷ empty_slots n

  -- `pop_batch`: the slots, how many of them are filled, and the queue.
  unfoldable pub pop_batch : List (ℕ × List A) → Option ((List (Option A) × ℕ) × List (ℕ × List A))
  pop_batch queue = elim (pop_loop pop_batch_size queue) [
    | none ↦ none
    | some (ds, left) ↦
        some ((map some ds ++ empty_slots (pop_batch_size - length ds), length ds), left)
  ]

  -- The descriptors of a batch, as `descs.into_iter().flatten()` gives them to the card.
  abbrev pub flatten : List (Option A) → List A
  flatten [] = []
  flatten (none ∷ slots) = flatten slots
  flatten (some d ∷ slots) = d ∷ flatten slots
