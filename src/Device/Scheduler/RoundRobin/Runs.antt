-- ===== src/Device/Scheduler/RoundRobin/Runs.antt =====
-- Runs of the round robin: pushes and batches in any order.
use dtld_rdma_driver.Base.{
  ℕ, zero, suc, ◌≡◌, refl, sym, ap, ◌∙◌, Option, some, none, List, [], ◌∷◌, ◌++◌, All,
}
use mathlib.Core.List.{append_assoc, append-nil}
use dtld_rdma_driver.Device.Scheduler.RoundRobin.{pop_batch_size, push, pop_loop}
use dtld_rdma_driver.Device.Scheduler.RoundRobin.Valid.{Owned, IsFilled, IsValid, push-IsValid}
use dtld_rdma_driver.Base.{◌-◌, map, length}
use dtld_rdma_driver.Device.Scheduler.RoundRobin.{pop_batch, flatten, empty_slots}
use dtld_rdma_driver.Device.Scheduler.RoundRobin.Fifo.{
  contents, of, of-append, push-of, pop_loop-of,
}

module _ {ℓ} (A : Type ℓ) where
  -- What the scheduler's thread asks of the strategy.
  pub data Op : Type ℓ where
    pushed : ℕ → List A → Op
    batch : Op

module _ {ℓ} {A : Type ℓ} where
  -- A run: all that was popped, and the queue that is left.
  unfoldable pub run : List (Op A) → List (ℕ × List A) → Option (List A × List (ℕ × List A))
  run [] queue = some ([], queue)
  run (pushed qpn desc ∷ ops) queue = run ops (push qpn desc queue)
  run (batch ∷ ops) queue = elim (pop_batch queue) [
    | none ↦ none
    | some ((slots, _), left) ↦ elim (run ops left) [
      | none ↦ none
      | some (es, left') ↦ some (flatten slots ++ es, left')
    ]
  ]

  flatten-filled : (ds : List A) (k : ℕ) → flatten (map some ds ++ empty_slots k) ≡ ds
  flatten-filled [] zero = refl
  flatten-filled [] (suc k) = flatten-filled [] k
  flatten-filled (d ∷ ds) k = ap (λ l. d ∷ l) (flatten-filled ds k)

  pop_batch_lem :
      (queue left : List (ℕ × List A)) (ds : List A)
      → pop_loop pop_batch_size queue ≡ some (ds, left)
      → pop_batch queue
        ≡ some ((map some ds ++ empty_slots (pop_batch_size - length ds), length ds), left)
  unfolding pop_batch pop_loop
  pop_batch_lem queue left ds e = rw e refl

  run-batch :
      (ops : List (Op A)) (queue mid left : List (ℕ × List A)) (ds es : List A)
      → pop_loop pop_batch_size queue ≡ some (ds, mid)
      → run ops mid ≡ some (es, left)
      → run (batch ∷ ops) queue ≡ some (ds ++ es, left)
  unfolding run pop_batch pop_loop
  run-batch ops queue mid left ds es e e' =
      rw (pop_batch_lem queue mid ds e, e', flatten-filled ds (pop_batch_size - length ds)) refl

  abbrev pub all_pushed : List (Op A) → List A
  all_pushed [] = []
  all_pushed (pushed _ desc ∷ ops) = desc ++ all_pushed ops
  all_pushed (batch ∷ ops) = all_pushed ops

module _ {ℓ} {A : Type ℓ} (owner : A → ℕ) where
  -- A push brings at least one descriptor, and only those of the queue pair that it names.
  abbrev pub IsProper : Op A → Type 0
  IsProper (pushed qpn desc) = IsFilled owner desc × Owned owner qpn desc
  IsProper batch = Unit

  moved :
      (n qpn : ℕ) (desc : List A) (queue : List (ℕ × List A)) (later : List A)
      → Owned owner qpn desc
      → IsValid owner queue
      → of owner n (contents (push qpn desc queue)) ++ of owner n later
        ≡ of owner n (contents queue) ++ of owner n (desc ++ later)
  moved n qpn desc queue later o v =
      ap (λ t. t ++ of owner n later) (push-of owner n qpn desc queue o v)
      ∙ append_assoc (of owner n (contents queue)) (of owner n desc) (of owner n later)
      ∙ ap (λ t. of owner n (contents queue) ++ t) (sym (of-append owner n desc later))

  -- However pushes of at least one descriptor each and batches follow one another, no batch panics,
  -- and for every queue pair the descriptors popped, followed by those still queued, are those that
  -- were queued at first, followed by those pushed since, in order: nothing is lost, made twice or
  -- overtaken.
  pub run-of :
      (n : ℕ) (ops : List (Op A)) (queue : List (ℕ × List A))
      → IsValid owner queue
      → All IsProper ops
      → (popped : List A) × (left : List (ℕ × List A)) × (run ops queue ≡ some (popped, left))
        × IsValid owner left
        × (of owner n popped ++ of owner n (contents left)
            ≡ of owner n (contents queue) ++ of owner n (all_pushed ops))
  unfolding run pop_batch pop_loop
  run-of n [] queue v ps = ([], queue, refl, v, sym (append-nil (of owner n (contents queue))))
  run-of n (pushed qpn desc ∷ ops) queue v ((f, o), ps) =
      let (es, left, e, v', k) =
        run-of n ops (push qpn desc queue) (push-IsValid owner qpn desc queue f o v) ps in
      (es, left, e, v', k ∙ moved n qpn desc queue (all_pushed ops) o v)
  run-of n (batch ∷ ops) queue v (_, ps) =
      let (ds, mid, e, v', k) = pop_loop-of owner n pop_batch_size queue v in
      let (es, left, e', v'', k') = run-of n ops mid v' ps in
      (
        ds ++ es,
        left,
        run-batch ops queue mid left ds es e e',
        v'',
        ap (λ t. t ++ of owner n (contents left)) (of-append owner n ds es)
            ∙ append_assoc (of owner n ds) (of owner n es) (of owner n (contents left))
            ∙ ap (λ t. of owner n ds ++ t) k'
            ∙ sym (
                append_assoc (of owner n ds) (of owner n (contents mid))
                  (of owner n (all_pushed ops)))
            ∙ ap (λ t. t ++ of owner n (all_pushed ops)) k,
      )
