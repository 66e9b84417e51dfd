-- ===== src/Device/Scheduler/RoundRobin/Tests.antt =====
-- The round robin at concrete queues; a descriptor is a pair of its queue pair and its number.
use dtld_rdma_driver.Base.{ℕ, ◌≡◌, refl, some, List, [], ◌∷◌, ◌++◌, arith}
use dtld_rdma_driver.Device.Scheduler.RoundRobin.{put_back, pop_loop}
use dtld_rdma_driver.Device.Scheduler.RoundRobin.Valid.{IsValid}
use dtld_rdma_driver.Device.Scheduler.RoundRobin.Fifo.{of, contents}
use dtld_rdma_driver.Device.Scheduler.RoundRobin.Runs.{Op, pushed, batch, run, all_pushed, run-of}
use dtld_rdma_driver.Device.Scheduler.RoundRobin.Fair.{heads, pop_loop-heads}

abbrev owner : ℕ × ℕ → ℕ
owner d = d.0

abbrev queue : List (ℕ × List (ℕ × ℕ))
queue = (1, (1, 10) ∷ (1, 11) ∷ []) ∷ (2, (2, 20) ∷ []) ∷ []

abbrev ops : List (Op (ℕ × ℕ))
ops = pushed 2 ((2, 21) ∷ (2, 22) ∷ []) ∷ batch ∷ pushed 1 ((1, 12) ∷ []) ∷ []

queue-IsValid : IsValid owner queue
queue-IsValid = (tt, (refl, (refl, tt)), ((λ e. omega (arith, e)), tt), (tt, (refl, tt), tt, tt))

run-of_example :
    (popped : List (ℕ × ℕ)) × (left : List (ℕ × List (ℕ × ℕ))) × (run ops queue
      ≡ some (popped, left))
    × IsValid owner left
    × (of owner 2 popped ++ of owner 2 (contents left)
        ≡ of owner 2 (contents queue) ++ of owner 2 (all_pushed ops))
run-of_example =
    run-of owner 2 ops queue queue-IsValid ((tt, (refl, (refl, tt))), (tt, ((tt, (refl, tt)), tt)))

turns : pop_loop 3 queue ≡ some ((1, 10) ∷ (2, 20) ∷ (1, 11) ∷ [], [])
unfolding pop_loop put_back
turns = refl

pop_loop-heads_example :
    (left : List (ℕ × List (ℕ × ℕ))) × (pop_loop 2 queue ≡ some (heads owner 2 queue, left))
pop_loop-heads_example = pop_loop-heads owner 2 queue queue-IsValid (omega arith)
