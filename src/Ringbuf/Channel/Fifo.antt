-- ===== src/Ringbuf/Channel/Fifo.antt =====
-- The ring as a first-in-first-out channel.
use native.Mathlib.Nat.{mod-eq_of_lt}
use dtld_rdma_driver.Base.{
  ℕ, suc, ◌+◌, ◌*◌, ◌^◌, ◌<◌, ◌≤◌, ◌≡◌, sym, subst, ap, ◌∙◌, List, [], ◌∷◌, ◌++◌, arith, true,
  false, Bool-cases, inl, inr, add64,
}
use mathlib.Core.List.{append-nil, append_assoc}
use dtld_rdma_driver.Ringbuf.Index.{used}
use dtld_rdma_driver.Ringbuf.Writer.{
  would_it_full, next_head_idx, advance_head, wait_tail, descriptor_at, give, next_timeout,
}
use dtld_rdma_driver.Ringbuf.Writer.Invariant.{
  advance_head-IsValid, next_head_idx-lt, used-next_head_idx, would_it_full-room,
}
use dtld_rdma_driver.Ringbuf.Writer.Grant.{descriptor_at-offset, grant}
use dtld_rdma_driver.Ringbuf.Channel.{
  Channel, Op, push, publish, take, update, host_push, host_publish, card_take, run,
}
use dtld_rdma_driver.Ringbuf.Channel.Sync.{
  IsSynced, held, contents, used-card, append_at, Keeps, host_publish-Keeps, card_take-Keeps,
}
use dtld_rdma_driver.Ringbuf.Channel.Window.{window}

module _ {ℓ} {D : Type ℓ} (k : ℕ) (small : 2 ^ k ≤ 2 ^ 31) (elem_size : ℕ) (pos : 0 < elem_size)
    (addressable : 2 ^ k * elem_size < 2 ^ 64) where
  -- The three things that may become of a push: the host finds room in what it knows, it finds room
  -- after asking for the card's tail, or the ring is full.
  host_push-known :
      (x : D) (c : Channel D)
      → IsSynced (2 ^ k) elem_size c
      → would_it_full (2 ^ k) (next_head_idx (2 ^ k) c.writer) c.writer.tail ≡ false
      → let (c', pushed) = host_push (2 ^ k) elem_size x c in Keeps (2 ^ k) elem_size c pushed [] c'
  unfolding host_push next_timeout
  host_push-known x c v room =
      rw (room, next_timeout)
        (
          record {
            writer =
                (grant k small elem_size pos addressable v.writer
                  (omega (arith, space, v.behind))).valid;
            card_in = v.card_in;
            behind = v.behind;
            register = v.register;
          },
          sym (
                append_at k small elem_size pos addressable c.mem (next_head_idx (2 ^ k) c.writer)
                  c.card_tail (held (2 ^ k) elem_size c) _ x (next_head_idx-lt k small v.writer)
                  v.card_in (used-card k small elem_size pos addressable c v)
                  (omega (arith, space, v.behind))
                  (descriptor_at-offset k small elem_size pos addressable
                    (next_head_idx (2 ^ k) c.writer)))
              ∙ ap
                  (window (2 ^ k) elem_size
                    (update c.mem
                      (descriptor_at (2 ^ k) elem_size (next_head_idx (2 ^ k) c.writer)).offset x)
                    c.card_tail)
                  {x = suc (held (2 ^ k) elem_size c)} (omega (arith, one_more)),
        )
    where
      space : used (2 ^ k) c.writer.head c.writer.tail + c.writer.written_cnt < 2 ^ k
      space =
          subst (λ (u : ℕ). u < 2 ^ k) (used-next_head_idx k small v.writer)
            (would_it_full-room k small (next_head_idx (2 ^ k) c.writer) c.writer.tail
              (next_head_idx-lt k small v.writer) v.writer.tail_in
              (omega (arith, used-next_head_idx k small v.writer, v.writer.fits)) room)

      one_more : add64 c.writer.written_cnt 1 ≡ c.writer.written_cnt + 1
      one_more = mod-eq_of_lt (omega (arith, space))

  host_push-asked :
      (x : D) (c : Channel D)
      → IsSynced (2 ^ k) elem_size c
      → would_it_full (2 ^ k) (next_head_idx (2 ^ k) c.writer) c.writer.tail ≡ true
      → would_it_full (2 ^ k) (next_head_idx (2 ^ k) c.writer) c.card_tail ≡ false
      → let (c', pushed) = host_push (2 ^ k) elem_size x c in Keeps (2 ^ k) elem_size c pushed [] c'
  unfolding host_push next_timeout advance_head
  host_push-asked x c v full room =
      rw (full, next_timeout, room, wait_tail, give)
        (
          record {
            writer = record {
              head_in = next_head_idx-lt k small v.writer;
              tail_in = v.card_in;
              fits = omega (arith, space);
            };
            card_in = v.card_in;
            behind = omega arith;
            register = mod-eq_of_lt (omega (arith, next_head_idx-lt k small v.writer));
          },
          sym (
                append_at k small elem_size pos addressable c.mem (next_head_idx (2 ^ k) c.writer)
                  c.card_tail (held (2 ^ k) elem_size c) _ x (next_head_idx-lt k small v.writer)
                  v.card_in (used-card k small elem_size pos addressable c v)
                  (omega (arith, space, used-card k small elem_size pos addressable c v))
                  (descriptor_at-offset k small elem_size pos addressable
                    (next_head_idx (2 ^ k) c.writer)))
              ∙ ap
                  (window (2 ^ k) elem_size
                    (update c.mem
                      (descriptor_at (2 ^ k) elem_size (next_head_idx (2 ^ k) c.writer)).offset x)
                    c.card_tail)
                  {x = suc (held (2 ^ k) elem_size c)}
                  (omega (arith, used-card k small elem_size pos addressable c v)),
        )
    where
      space : used (2 ^ k) (next_head_idx (2 ^ k) c.writer) c.card_tail < 2 ^ k
      space =
          would_it_full-room k small (next_head_idx (2 ^ k) c.writer) c.card_tail
            (next_head_idx-lt k small v.writer) v.card_in
            (omega
              (arith, used-card k small elem_size pos addressable c v, v.writer.fits, v.behind))
            room

  host_push-full :
      (x : D) (c : Channel D)
      → IsSynced (2 ^ k) elem_size c
      → would_it_full (2 ^ k) (next_head_idx (2 ^ k) c.writer) c.writer.tail ≡ true
      → would_it_full (2 ^ k) (next_head_idx (2 ^ k) c.writer) c.card_tail ≡ true
      → let (c', pushed) = host_push (2 ^ k) elem_size x c in Keeps (2 ^ k) elem_size c pushed [] c'
  unfolding host_push next_timeout advance_head
  host_push-full x c v full still =
      rw (full, next_timeout, still, wait_tail, give)
        (
          record {
            writer = (advance_head-IsValid k small v.writer).2;
            card_in = v.card_in;
            behind = omega (
              arith,
              used-card k small elem_size pos addressable c v,
              used-next_head_idx k small v.writer,
              v.behind,
            );
            register = mod-eq_of_lt (omega (arith, next_head_idx-lt k small v.writer));
          },
          append-nil (contents (2 ^ k) elem_size c)
              ∙ ap (window (2 ^ k) elem_size c.mem c.card_tail)
                  (omega (arith, used-card k small elem_size pos addressable c v)),
        )

  host_push-Keeps :
      (x : D) (c : Channel D)
      → IsSynced (2 ^ k) elem_size c
      → let (c', pushed) = host_push (2 ^ k) elem_size x c in Keeps (2 ^ k) elem_size c pushed [] c'
  host_push-Keeps x c v =
      elim (Bool-cases (would_it_full (2 ^ k) (next_head_idx (2 ^ k) c.writer) c.writer.tail)) [
        | inr room ↦ host_push-known x c v room
        | inl full ↦
            elim (Bool-cases (would_it_full (2 ^ k) (next_head_idx (2 ^ k) c.writer) c.card_tail)) [
              | inr room ↦ host_push-asked x c v full room
              | inl still ↦ host_push-full x c v full still
            ]
      ]

  -- For a ring of a power of two of slots, at most 2 ^ 31, whose bytes 64 bits count, with registers
  -- that can always be read and written, and from a state in which writer, registers and card are in
  -- step: whatever the host and the card do, and in whatever order, what the channel held at first
  -- and what the host pushed since is, in order, what the card took and what the channel holds now,
  -- and the two sides are in step again.
  pub run-fifo :
      (ops : List (Op D)) (c : Channel D)
      → IsSynced (2 ^ k) elem_size c
      → let (c', pushed, taken) = run (2 ^ k) elem_size ops c in
        Keeps (2 ^ k) elem_size c pushed taken c'
  unfolding run
  run-fifo [] c v = (v, append-nil (contents (2 ^ k) elem_size c))
  run-fifo (push x ∷ ops) c v =
      let (v', e) = host_push-Keeps x c v in
      let (v'', e') = run-fifo ops (host_push (2 ^ k) elem_size x c).0 v' in
      (
        v'',
        sym (append_assoc (contents (2 ^ k) elem_size c) _ _)
            ∙ ap (λ l. l ++ (run (2 ^ k) elem_size ops (host_push (2 ^ k) elem_size x c).0).1) e
            ∙ e',
      )
  run-fifo (publish ∷ ops) c v =
      let (v', e) = host_publish-Keeps k small elem_size pos addressable c v in
      let (v'', e') = run-fifo ops (host_publish (2 ^ k) elem_size c) v' in
      (
        v'',
        ap (λ l. l ++ (run (2 ^ k) elem_size ops (host_publish (2 ^ k) elem_size c)).1)
              (sym (append-nil (contents (2 ^ k) elem_size c)) ∙ e)
            ∙ e',
      )
  run-fifo (take ∷ ops) c v =
      let (v', e) = card_take-Keeps k small elem_size pos addressable c v in
      let (v'', e') = run-fifo ops (card_take (2 ^ k) elem_size c).0 v' in
      (
        v'',
        ap (λ l. l ++ (run (2 ^ k) elem_size ops (card_take (2 ^ k) elem_size c).0).1)
              (sym (append-nil (contents (2 ^ k) elem_size c)) ∙ e)
            ∙ append_assoc (card_take (2 ^ k) elem_size c).1 _ _
            ∙ ap (λ l. (card_take (2 ^ k) elem_size c).1 ++ l) e'
            ∙ sym (append_assoc (card_take (2 ^ k) elem_size c).1 _ _),
      )
