-- ===== src/Device/Scheduler/RoundRobin/Fair.antt =====
-- No queue pair waits for another one's second descriptor.
use dtld_rdma_driver.Base.{
  ℕ, zero, suc, ◌≤◌, ◌≡◌, refl, ap, some, List, [], ◌∷◌, length, length-append, arith,
}
use dtld_rdma_driver.Device.Scheduler.RoundRobin.{put_back, pop_loop}
use dtld_rdma_driver.Device.Scheduler.RoundRobin.Valid.{IsValid, put_back-IsValid}

module _ {ℓ} {A : Type ℓ} (owner : A → ℕ) where
  -- The first descriptor of each of the first `k` lists.
  abbrev pub heads : ℕ → List (ℕ × List A) → List A
  heads zero _ = []
  heads (suc k) [] = []
  heads (suc k) ((_, []) ∷ queue) = heads k queue
  heads (suc k) ((_, d ∷ _) ∷ queue) = d ∷ heads k queue

  heads-put_back :
      (k q : ℕ) (list : List A) (queue : List (ℕ × List A))
      → k ≤ length queue
      → heads k (put_back q list queue) ≡ heads k queue
  unfolding put_back
  heads-put_back k q [] queue h = refl
  heads-put_back zero q (d ∷ list) queue h = refl
  heads-put_back (suc k) q (d ∷ list) [] h = absurd (omega (arith, h))
  heads-put_back (suc k) q (d ∷ list) ((p, []) ∷ queue) h =
      heads-put_back k q (d ∷ list) queue (omega (arith, h))
  heads-put_back (suc k) q (d ∷ list) ((p, e ∷ l) ∷ queue) h =
      ap (λ t. e ∷ t) (heads-put_back k q (d ∷ list) queue (omega (arith, h)))

  length-put_back :
      (q : ℕ) (list : List A) (queue : List (ℕ × List A))
      → length queue ≤ length (put_back q list queue)
  unfolding put_back
  length-put_back q [] queue = omega arith
  length-put_back q (d ∷ list) queue = omega (arith, length-append queue ((q, d ∷ list) ∷ []))

  -- If `free` slots are to be filled and at least as many queue pairs have something to send, the
  -- slots take the next descriptor of each of the first `free` queue pairs, one of each.
  pub pop_loop-heads :
      (free : ℕ) (queue : List (ℕ × List A))
      → IsValid owner queue
      → free ≤ length queue
      → (left : List (ℕ × List A)) × (pop_loop free queue ≡ some (heads free queue, left))
  unfolding pop_loop
  pop_loop-heads zero queue v h = (queue, refl)
  pop_loop-heads (suc free) [] v h = absurd (omega (arith, h))
  pop_loop-heads (suc free) ((q, []) ∷ queue) (f, _, _, _) h = absurd (cc)
  pop_loop-heads (suc free) ((q, d ∷ list) ∷ queue) (_, (o, os), l, v) h =
      let (left, e) =
        pop_loop-heads free (put_back q list queue) (put_back-IsValid owner q list queue os l v)
          (omega (arith, h, length-put_back q list queue)) in
      (left, rw (e, heads-put_back free q list queue (omega (arith, h))) refl)
