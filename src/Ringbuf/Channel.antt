-- ===== src/Ringbuf/Channel.antt =====
-- A host and a card that share one ring: the host gives out slots through a `RingbufWriter`
-- (rust_driver/src/device/ringbuf.rs), writes a descriptor into each and publishes its head; the
-- card, which is not part of the repository, takes the slot at its tail while its head register
-- differs from its tail.
pub mod Window
pub mod Sync
pub mod Fifo
use dtld_rdma_driver.Base.{
  ℕ, ◌+◌, ◌*◌, ◌%◌, List, [], ◌∷◌, ◌++◌, Option, none, some, Result, ok, err, Outcome, done, failed,
  waiting, ◌==◌, if◌then◌else◌,
}
use dtld_rdma_driver.Device.{DeviceError}
use dtld_rdma_driver.Ringbuf.{Slice}
use dtld_rdma_driver.Ringbuf.Writer.{Writer, Poll, next_timeout, flush}

module _ {ℓ} (D : Type ℓ) where
  -- The shared memory by offset, the host's handle, and the card's two registers.
  pub record Channel : Type ℓ where
    pub mem : ℕ → D
    pub writer : Writer
    pub head_register : ℕ
    pub card_tail : ℕ

  pub data Op : Type ℓ where
    push : D → Op
    publish take : Op

-- A value written to the head register, if there is one.
abbrev pub registered : ℕ → Option ℕ → ℕ
registered old none = old
registered old (some value) = value

module _ {ℓ} {D : Type ℓ} where
  abbrev pub update : (ℕ → D) → ℕ → D → ℕ → D
  update mem a x b = if a == b then x else mem b

  -- One poll of the tail register, which holds the card's tail.
  abbrev pub tail_poll : Channel D → List Poll
  tail_poll c = record { reply = ok c.card_tail; elapsed = 0 } ∷ []

  module _ (depth elem_size : ℕ) where
    -- What the host does with the answer of `next`; a host that goes on waiting has pushed nothing.
    unfoldable pub store :
        Channel D → D → Outcome Slice DeviceError × Option ℕ × Writer → Channel D × List D
    store c x (done s, value, w) = (
      record c {
        mem = update c.mem s.offset x;
        writer = w;
        head_register = registered c.head_register value;
      },
      x ∷ [],
    )
    store c x (failed e, value, w) =
        (record c { writer = w; head_register = registered c.head_register value }, [])
    store c x (waiting, value, w) =
        (record c { writer = w; head_register = registered c.head_register value }, [])

    unfoldable pub host_push : D → Channel D → Channel D × List D
    unfolding store
    host_push x c = store c x (next_timeout depth elem_size none (ok tt) (tail_poll c) c.writer)

    unfoldable pub host_publish : Channel D → Channel D
    host_publish c =
        let (_, value, w) = flush depth (ok tt) c.writer in
        record c { writer = w; head_register = value }

    unfoldable pub card_take : Channel D → Channel D × List D
    card_take c = if c.head_register == c.card_tail then (c, []) else (
      record c { card_tail = (c.card_tail + 1) % (2 * depth) },
      c.mem (c.card_tail % depth * elem_size) ∷ [],
    )

    -- The channel after the operations, what the host pushed and what the card took.
    unfoldable pub run : List (Op D) → Channel D → Channel D × List D × List D
    unfolding host_push host_publish card_take
    run [] c = (c, [], [])
    run (push x ∷ ops) c =
        let (c', pushed) = host_push x c in
        let (c'', more, taken) = run ops c' in (c'', pushed ++ more, taken)
    run (publish ∷ ops) c = run ops (host_publish c)
    run (take ∷ ops) c =
        let (c', taken) = card_take c in
        let (c'', pushed, more) = run ops c' in (c'', pushed, taken ++ more)
