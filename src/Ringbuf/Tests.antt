-- ===== src/Ringbuf/Tests.antt =====
-- Runs of the ring's handles, and the theorems of the ring at concrete states.
use dtld_rdma_driver.Base.{
  ℕ, ◌*◌, ◌^◌, ◌≤◌, ◌≡◌, ◌≢◌, ◌↔◌, refl, waiting, true, some, none, ok, err, done, [], ◌∷◌, ◌++◌,
  List, arith,
}
use dtld_rdma_driver.Device.{timeout}
use dtld_rdma_driver.Ringbuf.{
  wrapping_add_helper, gen_hardware_idx_mask, get_descriptor_mut_helper, is_empty_helper,
  is_full_helper, gen_memory_idx_mask, gen_hardware_idx_guard_mask, is_valid_shape, new,
}
use dtld_rdma_driver.Ringbuf.Index.{used, is_full-used}
use dtld_rdma_driver.Ringbuf.Shape.{is_valid_shape_sound}
use dtld_rdma_driver.Ringbuf.Writer
use dtld_rdma_driver.Ringbuf.Writer.{Writer, flush, drop, next_timeout}
use dtld_rdma_driver.Ringbuf.Writer.{would_it_full}
use dtld_rdma_driver.Ringbuf.Writer.Waiting.{next_timeout-returns}
use dtld_rdma_driver.Ringbuf.Writer.Failure.{flush-drop_double}
use dtld_rdma_driver.Ringbuf.Reader
use dtld_rdma_driver.Ringbuf.Reader.{Reader}
use dtld_rdma_driver.Ringbuf.Reader.Invariant.{IsValid, written_back, flush-drop_retry}
use dtld_rdma_driver.Ringbuf.Reader.Take.{Taken, next_timeout-Taken}
use dtld_rdma_driver.Ringbuf.Channel.{Channel, Op, push, publish, take, run}
use dtld_rdma_driver.Ringbuf.Channel.Sync.{Keeps}
use dtld_rdma_driver.Ringbuf.Channel.Fifo.{run-fifo}

-- A full ring of four slots, whose tail the card has moved on meanwhile.
abbrev full : Writer
full = record { head = 6; tail = 2; written_cnt = 0 }

abbrev asked : Writer
asked = record { head = 6; tail = 3; written_cnt = 1 }

abbrev late_tail : Writer.Poll
late_tail = record { reply = ok 3; elapsed = 5 }

abbrev early_tail : Writer.Poll
early_tail = record { reply = ok 2; elapsed = 2 }

new_ring :
    new 128 32 4096 8192 4096 ≡ some (record { address = 8192; buf_len = 4096; head = 0; tail = 0 })
unfolding new
new_ring = refl

is_full-used_example :
    (is_full_helper 6 2 (gen_memory_idx_mask 4) (gen_hardware_idx_guard_mask 4) ≡ true)
    ↔ (used 4 6 2 ≡ 4)
is_full-used_example = is_full-used 2 (omega arith) 6 2 (omega arith) (omega arith)

-- The ring stays full, and the third poll is later than the timeout of four milliseconds.
next_timeout-returns_example :
    let still_full : Writer.Poll = record { reply = ok 2; elapsed = 6 } in
    let ended =
      next_timeout 4 32 (some 4) (ok tt) ((early_tail ∷ early_tail ∷ []) ++ still_full ∷ []) full in
    (next_timeout 4 32
        (some 4)
        (ok tt)
        ((early_tail ∷ early_tail ∷ []) ++ still_full ∷ late_tail ∷ [])
        full
      ≡ ended)
    × (ended.0 ≢ waiting)
next_timeout-returns_example =
    next_timeout-returns 4 32 (some 4) (ok tt) (early_tail ∷ early_tail ∷ []) (late_tail ∷ [])
      (record { reply = ok 2; elapsed = 6 }) full (omega arith) (omega arith)

-- A refused write-back of two slots, then the one of `drop`: the card is told of four.
flush-drop_double_example :
    let (_, _, w') = flush 4 (err timeout) (record { head = 6; tail = 6; written_cnt = 2 }) in
    let (published, w'') = drop 4 (ok tt) w' in (published ≡ 2) × (w''.head ≡ published)
flush-drop_double_example =
    flush-drop_double 2 (omega arith) (record { head = 6; tail = 6; written_cnt = 2 }) timeout
      (omega arith)

abbrev filled : Reader
filled = record { head = 1; tail = 6; read_cnt = 1 }

flush-drop_retry_example :
    let (_, refused, r') = Reader.flush 4 (err timeout) filled in
    let (published, r'') = Reader.drop 4 (ok tt) r' in
    (r' ≡ filled)
    × (published ≡ refused)
    × (published ≡ 7)
    × (r'' ≡ written_back 4 filled)
    × IsValid 4 r''
flush-drop_retry_example = flush-drop_retry 2 (omega arith) {r = filled} timeout (omega arith)

-- A full ring of which one slot was taken: its tail is written back before the next one is taken.
abbrev brimming : Reader
brimming = record { head = 2; tail = 6; read_cnt = 1 }

slot_taken : Reader.next_timeout 4 32 none (ok tt) [] brimming ≡ (
  done (record { offset = 96; size = 32 }),
  some 7,
  record { head = 2; tail = 7; read_cnt = 1 },
)
unfolding Reader.next_timeout is_empty_helper is_full_helper wrapping_add_helper
    gen_hardware_idx_mask gen_hardware_idx_guard_mask gen_memory_idx_mask get_descriptor_mut_helper
slot_taken = refl

next_timeout-Taken_example :
    Taken 4 32 brimming
      (record { offset = 96; size = 32 })
      (record { head = 2; tail = 7; read_cnt = 1 })
next_timeout-Taken_example =
    next_timeout-Taken 2 (omega arith) 32 (omega arith) none (ok tt) [] {r = brimming} (omega arith)
      tt slot_taken

abbrev idle : Channel ℕ
idle = record {
  mem = λ _. 0;
  writer = record { head = 7; tail = 7; written_cnt = 0 };
  head_register = 7;
  card_tail = 7;
}

abbrev script : List (Op ℕ)
script =
    push 11 ∷ push 12 ∷ take ∷ publish ∷ take ∷ push 13 ∷ push 14 ∷ push 15 ∷ push 16 ∷ take ∷ []

-- The fifth push finds the ring full; the pushes before it were published by the fourth.
script-run : (run 4 32 script idle).1 ≡ 11 ∷ 12 ∷ 13 ∷ 14 ∷ 15 ∷ []
unfolding run next_timeout flush is_empty_helper is_full_helper wrapping_add_helper
    gen_hardware_idx_mask gen_hardware_idx_guard_mask gen_memory_idx_mask get_descriptor_mut_helper
script-run = refl

run-fifo_example : let (c', pushed, taken) = run 4 32 script idle in Keeps 4 32 idle pushed taken c'
run-fifo_example = run-fifo 2 (omega arith) 32 (omega arith) (omega arith) script idle (omega arith)

is_valid_shape_sound_example :
    ((k : ℕ) × (◌≡◌ {A = ℕ} 128 (2 ^ k))) × ((m : ℕ) × (◌≡◌ {A = ℕ} 32 (2 ^ m))) × (4096 ≤ 128 * 32)
unfolding is_valid_shape
is_valid_shape_sound_example =
    is_valid_shape_sound 128 32 4096 (omega arith) (omega arith) (omega arith) refl
