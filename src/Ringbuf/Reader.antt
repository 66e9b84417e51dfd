-- ===== src/Ringbuf/Reader.antt =====
-- rust_driver/src/device/ringbuf.rs: `RingbufReader`, by which the host takes what the card wrote.
-- The answers of the adaptor `CsrReaderAdaptor` are arguments, and the values written to the tail
-- register are results.
pub mod Invariant
pub mod Take
use dtld_rdma_driver.Base.{
  ℕ, Bool, true, false, ◌&&◌, not, List, [], ◌∷◌, Option, none, some, Result, ok, err, Outcome,
  done, failed, waiting, u32, add64, ltb, if◌then◌else◌,
}
use dtld_rdma_driver.Device.{DeviceError, timeout}
use dtld_rdma_driver.Ringbuf.{
  Slice, gen_hardware_idx_mask, gen_hardware_idx_guard_mask, gen_memory_idx_mask, is_full_helper,
  is_empty_helper, wrapping_add_helper, get_descriptor_mut_helper,
}

-- `RingbufReader`: the two indices of the ring and the slots taken since the last write-back.
pub record Reader : Type 0 where
  pub head : ℕ
  pub tail : ℕ
  pub read_cnt : ℕ

-- One round of the waiting loop: the answer of `read_head`, and the milliseconds since the start.
pub record Poll : Type 0 where
  pub reply : Result ℕ DeviceError
  pub elapsed : ℕ

-- `Ringbuf::read`
unfoldable pub read : ℕ → ℕ → Reader
read head tail = record { head = head; tail = tail; read_cnt = 0 }

-- `timeout.map_or(0, |d| d.as_millis())`
abbrev pub limit_in_millis : Option ℕ → ℕ
limit_in_millis none = 0
limit_in_millis (some d) = d

unfoldable pub would_it_empty : ℕ → ℕ → Bool
would_it_empty new_head new_tail = is_empty_helper new_head new_tail

-- The loop of `next_timeout` that waits for a slot at `next_tail`; 0 stands for no timeout.
unfoldable pub wait_head : ℕ → ℕ → List Poll → Outcome ℕ DeviceError
unfolding would_it_empty
wait_head next_tail limit [] = waiting
wait_head next_tail limit (p ∷ ps) =
    let rest = wait_head next_tail limit ps in
    elim p.reply [
      | err e ↦ failed e
      | ok new_head ↦
          if not (would_it_empty new_head next_tail)
          then done new_head
          else if ltb 0 limit && ltb limit p.elapsed
          then failed timeout
          else rest
    ]

-- `DEPTH`
module _ (depth : ℕ) where
  unfoldable pub next_tail_idx : Reader → ℕ
  next_tail_idx r = wrapping_add_helper r.tail r.read_cnt (gen_hardware_idx_mask depth)

  unfoldable pub is_full : Reader → Bool
  is_full r =
      is_full_helper r.head r.tail (gen_memory_idx_mask depth) (gen_hardware_idx_guard_mask depth)

  -- `advance_tail`, given the answer of `write_tail`: the result, the value that was written and the
  -- reader after it.
  unfoldable pub advance_tail :
      Result (Unit {0}) DeviceError → Reader → Result (Unit {0}) DeviceError × ℕ × Reader
  unfolding next_tail_idx
  advance_tail reply r =
      let new_tail = next_tail_idx r in
      elim reply [
        | ok _ ↦ (ok tt, u32 new_tail, record r { tail = new_tail; read_cnt = 0 })
        | err e ↦ (err e, u32 new_tail, r)
      ]

  -- `flush`
  unfoldable pub flush :
      Result (Unit {0}) DeviceError → Reader → Result (Unit {0}) DeviceError × ℕ × Reader
  unfolding advance_tail
  flush reply r = advance_tail reply r

  -- `drop`: an error of the write-back is only logged.
  unfoldable pub drop : Result (Unit {0}) DeviceError → Reader → ℕ × Reader
  unfolding advance_tail
  drop reply r = let (_, value, r') = advance_tail reply r in (value, r')

-- `DEPTH` and `ELEM_SIZE`
module _ (depth elem_size : ℕ) where
  -- `get_descriptor_mut_helper` at the reader's constants.
  unfoldable pub descriptor_at : ℕ → Slice
  descriptor_at idx = get_descriptor_mut_helper idx elem_size (gen_memory_idx_mask depth)

  -- The end of `next_timeout` after the waiting loop.
  unfoldable pub take_found :
      ℕ → Option ℕ → Reader → Outcome ℕ DeviceError → Outcome Slice DeviceError × Option ℕ × Reader
  unfolding descriptor_at
  take_found next_tail value r (done new_head) = (
    done (descriptor_at next_tail),
    value,
    record r { head = new_head; read_cnt = add64 r.read_cnt 1 },
  )
  take_found next_tail value r (failed e) = (failed e, value, r)
  take_found next_tail value r waiting = (waiting, value, r)

  -- `next_timeout` after the tail of a full ring was written back.
  unfoldable pub take_next :
      ℕ → List Poll → Option ℕ → Reader → Outcome Slice DeviceError × Option ℕ × Reader
  unfolding take_found wait_head would_it_empty next_tail_idx
  take_next limit polls value r =
      let next_tail = next_tail_idx depth r in
      if would_it_empty r.head next_tail
      then take_found next_tail value r (wait_head next_tail limit polls)
      else (done (descriptor_at next_tail), value, record r { read_cnt = add64 r.read_cnt 1 })

  unfoldable pub after_write_back :
      ℕ
      → List Poll
      → Result (Unit {0}) DeviceError × ℕ × Reader
      → Outcome Slice DeviceError × Option ℕ × Reader
  unfolding take_next
  after_write_back limit polls (ok _, value, r) = take_next limit polls (some value) r
  after_write_back limit polls (err e, value, r) = (failed e, some value, r)

  -- `next_timeout`, given its timeout in milliseconds, the answer of `write_tail` and the polls: the
  -- slot taken, what was written to the tail register, and the reader after the call.
  unfoldable pub next_timeout :
      Option ℕ
      → Result (Unit {0}) DeviceError
      → List Poll
      → Reader
      → Outcome Slice DeviceError × Option ℕ × Reader
  unfolding is_full advance_tail after_write_back take_next
  next_timeout limit reply polls r =
      if is_full depth r
      then after_write_back (limit_in_millis limit) polls (advance_tail depth reply r)
      else take_next (limit_in_millis limit) polls none r

  -- `next`
  unfoldable pub next :
      Result (Unit {0}) DeviceError
      → List Poll
      → Reader
      → Outcome Slice DeviceError × Option ℕ × Reader
  unfolding next_timeout
  next reply polls r = next_timeout none reply polls r
