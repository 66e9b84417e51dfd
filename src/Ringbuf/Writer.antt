-- ===== src/Ringbuf/Writer.antt =====
-- rust_driver/src/device/ringbuf.rs: `RingbufWriter`, by which the host hands slots to the card.
-- The card is met through the adaptor `CsrWriterAdaptor`: its answers are arguments, and the values
-- written to its head register are results.
pub mod Invariant
pub mod Grant
pub mod Waiting
pub mod Failure
use dtld_rdma_driver.Base.{
  ℕ, ◌+◌, ◌<◌, Bool, true, false, ◌&&◌, not, List, [], ◌∷◌, Option, none, some, Result, ok, err,
  Outcome, done, failed, waiting, u32, add64, ltb, if◌then◌else◌,
}
use dtld_rdma_driver.Device.{DeviceError, timeout}
use dtld_rdma_driver.Ringbuf.{
  Slice, gen_hardware_idx_mask, gen_hardware_idx_guard_mask, gen_memory_idx_mask, is_full_helper,
  wrapping_add_helper, get_descriptor_mut_helper,
}

-- `RingbufWriter`: the two indices of the ring and the slots given out since the last write-back.
pub record Writer : Type 0 where
  pub head : ℕ
  pub tail : ℕ
  pub written_cnt : ℕ

-- One round of the waiting loop: the answer of `read_tail`, and the milliseconds since the start.
pub record Poll : Type 0 where
  pub reply : Result ℕ DeviceError
  pub elapsed : ℕ

-- `Ringbuf::write`
unfoldable pub write : ℕ → ℕ → Writer
write head tail = record { head = head; tail = tail; written_cnt = 0 }

-- `timeout.map_or(0, |d| d.as_millis())`
abbrev pub limit_in_millis : Option ℕ → ℕ
limit_in_millis none = 0
limit_in_millis (some d) = d

-- `DEPTH`
module _ (depth : ℕ) where
  unfoldable pub would_it_full : ℕ → ℕ → Bool
  would_it_full new_head new_tail =
      is_full_helper new_head new_tail (gen_memory_idx_mask depth)
        (gen_hardware_idx_guard_mask depth)

  unfoldable pub next_head_idx : Writer → ℕ
  next_head_idx w = wrapping_add_helper w.head w.written_cnt (gen_hardware_idx_mask depth)

  -- `advance_head`, given the answer of `write_head`: the result, the value that was written and
  -- the writer after it.
  unfoldable pub advance_head :
      Result (Unit {0}) DeviceError → Writer → Result (Unit {0}) DeviceError × ℕ × Writer
  unfolding next_head_idx
  advance_head reply w =
      let new_head = next_head_idx w in
      let moved = record w { head = new_head } in
      elim reply [
        | ok _ ↦ (ok tt, u32 new_head, record moved { written_cnt = 0 })
        | err e ↦ (err e, u32 new_head, moved)
      ]

  -- `flush`
  unfoldable pub flush :
      Result (Unit {0}) DeviceError → Writer → Result (Unit {0}) DeviceError × ℕ × Writer
  unfolding advance_head
  flush reply w = advance_head reply w

  -- `drop`: an error of the write-back is only logged.
  unfoldable pub drop : Result (Unit {0}) DeviceError → Writer → ℕ × Writer
  unfolding advance_head
  drop reply w = let (_, value, w') = advance_head reply w in (value, w')

  -- The loop of `next_timeout` that waits for room at `idx`; 0 stands for no timeout.
  unfoldable pub wait_tail : ℕ → ℕ → List Poll → Outcome ℕ DeviceError
  unfolding would_it_full
  wait_tail idx limit [] = waiting
  wait_tail idx limit (p ∷ ps) =
      let rest = wait_tail idx limit ps in
      elim p.reply [
        | err e ↦ failed e
        | ok new_tail ↦
            if not (would_it_full idx new_tail)
            then done new_tail
            else if ltb 0 limit && ltb limit p.elapsed
            then failed timeout
            else rest
      ]

-- `DEPTH` and `ELEM_SIZE`
module _ (depth elem_size : ℕ) where
  -- `get_descriptor_mut_helper` at the writer's constants.
  unfoldable pub descriptor_at : ℕ → Slice
  descriptor_at idx = get_descriptor_mut_helper idx elem_size (gen_memory_idx_mask depth)

  -- The end of `next_timeout` after the waiting loop.
  unfoldable pub give :
      ℕ → ℕ → Writer → Outcome ℕ DeviceError → Outcome Slice DeviceError × Option ℕ × Writer
  unfolding descriptor_at
  give idx value w (done new_tail) = (
    done (descriptor_at idx),
    some value,
    record w { tail = new_tail; written_cnt = add64 w.written_cnt 1 },
  )
  give idx value w (failed e) = (failed e, some value, w)
  give idx value w waiting = (waiting, some value, w)

  -- The branch of `next_timeout` for a ring that looks full.
  unfoldable pub wait_for_room :
      ℕ
      → ℕ
      → List Poll
      → Result (Unit {0}) DeviceError × ℕ × Writer
      → Outcome Slice DeviceError × Option ℕ × Writer
  unfolding give wait_tail
  wait_for_room limit idx polls (ok _, value, w) =
      give idx value w (wait_tail depth idx limit polls)
  wait_for_room limit idx polls (err e, value, w) = (failed e, some value, w)

  -- `next_timeout`, given its timeout in milliseconds, the answer of `write_head` and the polls: the
  -- slot given out, what was written to the head register, and the writer after the call.
  unfoldable pub next_timeout :
      Option ℕ
      → Result (Unit {0}) DeviceError
      → List Poll
      → Writer
      → Outcome Slice DeviceError × Option ℕ × Writer
  unfolding would_it_full next_head_idx advance_head wait_for_room descriptor_at
  next_timeout limit reply polls w =
      let idx = next_head_idx depth w in
      if would_it_full depth idx w.tail
      then wait_for_room (limit_in_millis limit) idx polls (advance_head depth reply w)
      else (done (descriptor_at idx), none, record w { written_cnt = add64 w.written_cnt 1 })

  -- `next`
  unfoldable pub next :
      Result (Unit {0}) DeviceError
      → List Poll
      → Writer
      → Outcome Slice DeviceError × Option ℕ × Writer
  unfolding next_timeout
  next reply polls w = next_timeout none reply polls w
