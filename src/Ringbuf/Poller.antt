-- ===== src/Ringbuf/Poller.antt =====
-- rust_driver/src/device/ringbuf.rs: `RingbufPollDescriptorReader`, which finds a filled slot by
-- looking into the slot. What the adaptor's `poll` answers is an argument.
use dtld_rdma_driver.Base.{
  ℕ, ◌≡◌, refl, Bool, ◌&&◌, List, [], ◌∷◌, Result, ok, err, Outcome, done, failed, waiting, ltb,
  if◌then◌else◌, arith,
}
use dtld_rdma_driver.Device.{DeviceError, timeout}
use dtld_rdma_driver.Ringbuf.{
  Slice, gen_hardware_idx_mask, gen_memory_idx_mask, wrapping_add_helper, get_descriptor_mut_helper,
}

pub record Poller : Type 0 where
  pub head : ℕ
  pub tail : ℕ

-- One round of the loop: the answer of `poll`, and the milliseconds since the start.
pub record Poll : Type 0 where
  pub reply : Result Bool DeviceError
  pub elapsed : ℕ

unfoldable pub current_idx : Poller → ℕ
current_idx p = p.head

module _ (depth elem_size : ℕ) where
  unfoldable pub advance_idx : Poller → Poller
  unfolding current_idx
  advance_idx p =
      let next_idx = wrapping_add_helper (current_idx p) 1 (gen_hardware_idx_mask depth) in
      record { head = next_idx; tail = next_idx }

  -- The loop of `next_timeout`; 0 stands for no timeout.
  unfoldable pub poll_slot : ℕ → List Poll → Poller → Outcome Slice DeviceError × Poller
  unfolding advance_idx current_idx
  poll_slot limit [] p = (waiting, p)
  poll_slot limit (q ∷ qs) p =
      let rest = poll_slot limit qs p in
      elim q.reply [
        | err e ↦ (failed e, p)
        | ok ready ↦
            if ready
            then (
              done
                  (get_descriptor_mut_helper (current_idx p) elem_size (gen_memory_idx_mask depth)),
              advance_idx p,
            )
            else if ltb 0 limit && ltb limit q.elapsed
            then (failed timeout, p)
            else rest
      ]

  -- `next`, which has no timeout.
  unfoldable pub next : List Poll → Poller → Outcome Slice DeviceError × Poller
  unfolding poll_slot
  next polls p = poll_slot 0 polls p

  -- What a call may come to.
  abbrev pub IsStep : Poller → Outcome Slice DeviceError × Poller → Type 0
  IsStep p (done s, p') =
      (s ≡ get_descriptor_mut_helper p.head elem_size (gen_memory_idx_mask depth))
      × (p' ≡ advance_idx p)
  IsStep p (failed e, p') = p' ≡ p
  IsStep p (waiting, p') = p' ≡ p

  -- A slot that is found is the one at the head, and both indices move one slot on; an error, a
  -- timeout and a call that still waits leave the handle as it was.
  pub poll_slot-IsStep : (limit : ℕ) (qs : List Poll) (p : Poller) → IsStep p (poll_slot limit qs p)
  unfolding poll_slot
  poll_slot-IsStep limit [] p = refl
  poll_slot-IsStep limit (q ∷ qs) p = ground (arith, poll_slot-IsStep limit qs p)
