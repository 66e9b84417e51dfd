-- ===== src/Ringbuf/Channel/Sync.antt =====
-- A channel in step: what the card sees of the ring, and that publishing and taking keep it so.
use native.Mathlib.Nat.{one-le-pow, mod-lt, mod-eq_of_lt}
use dtld_rdma_driver.Base.{
  ℕ, suc, ◌+◌, ◌*◌, ◌%◌, ◌^◌, ◌<◌, ◌≤◌, ◌≡◌, sym, ap, ◌∙◌, List, [], ◌∷◌, ◌++◌, arith, ◌==◌, false,
  Bool-cases, inl, inr,
}
use mathlib.Core.List.{append-nil}
use dtld_rdma_driver.Ringbuf.Index.{
  used, used-cases, used-advance, used-retreat, tail-add-used, slot-mod, window_slots_differ,
}
use dtld_rdma_driver.Ringbuf.Writer.{next_head_idx, advance_head, flush}
use dtld_rdma_driver.Ringbuf.Writer.Invariant.{
  IsValid, advance_head-IsValid, next_head_idx_lem, next_head_idx-lt, used-next_head_idx,
}
use dtld_rdma_driver.Ringbuf.Writer.Grant.{offsets_differ}
use dtld_rdma_driver.Ringbuf.Channel.{Channel, update, host_publish, card_take}
use dtld_rdma_driver.Ringbuf.Channel.Window.{window, window-mod, window-push}

module _ {ℓ} {D : Type ℓ} (depth elem_size : ℕ) where
  -- The card reads from its own tail on; the host may know an older one.
  pub record IsSynced (c : Channel D) : Type 0 where
    pub writer : IsValid depth c.writer
    pub card_in : c.card_tail < 2 * depth
    pub behind : used depth c.writer.head c.card_tail ≤ used depth c.writer.head c.writer.tail
    pub register : c.head_register ≡ c.writer.head

  -- How many descriptors were pushed and not taken, and which, the oldest first.
  abbrev pub held : Channel D → ℕ
  held c = used depth c.writer.head c.card_tail + c.writer.written_cnt

  abbrev pub contents : Channel D → List D
  contents c = window depth elem_size c.mem c.card_tail (held c)

  -- From `c` to `c'` the host pushed and the card took these descriptors: `c'` is in step, and no
  -- descriptor was lost, overwritten or reordered.
  abbrev pub Keeps : Channel D → List D → List D → Channel D → Type ℓ
  Keeps c pushed taken c' = IsSynced c' × (contents c ++ pushed ≡ taken ++ contents c')

module _ {ℓ} {D : Type ℓ} (k : ℕ) (small : 2 ^ k ≤ 2 ^ 31) (elem_size : ℕ) (pos : 0 < elem_size)
    (addressable : 2 ^ k * elem_size < 2 ^ 64) where
  -- The next index is as far from the card's tail as the channel holds descriptors.
  pub used-card :
      (c : Channel D)
      → IsSynced (2 ^ k) elem_size c
      → used (2 ^ k) (next_head_idx (2 ^ k) c.writer) c.card_tail ≡ held (2 ^ k) elem_size c
  used-card c v = rw (next_head_idx_lem k small v.writer) (
      used-advance (2 ^ k) c.writer.head c.card_tail c.writer.written_cnt v.writer.head_in v.card_in
        (omega (arith, one-le-pow k 2, v.writer.fits, v.behind)))

  -- Writing into the slot of an index that is not a whole ring ahead appends to the window.
  pub append_at :
      (mem : ℕ → D) (idx tail n a : ℕ) (x : D)
      → idx < 2 * 2 ^ k
      → tail < 2 * 2 ^ k
      → used (2 ^ k) idx tail ≡ n
      → n < 2 ^ k
      → a ≡ idx % 2 ^ k * elem_size
      → window (2 ^ k) elem_size (update mem a x) tail (suc n)
        ≡ window (2 ^ k) elem_size mem tail n ++ (x ∷ [])
  append_at mem idx tail n a x hi ht e room at =
      window-push (2 ^ k) elem_size mem tail n a x place (λ j hj.
        rw place (offsets_differ _ _ elem_size pos (window_slots_differ (2 ^ k) tail j n hj room)))
    where
      place : a ≡ (tail + n) % 2 ^ k * elem_size
      place =
          at
          ∙ ap (λ (t : ℕ). t * elem_size)
              (ap (λ (t : ℕ). t % 2 ^ k) (sym (tail-add-used (2 ^ k) idx tail hi ht))
                ∙ slot-mod (2 ^ k) (tail + used (2 ^ k) idx tail)
                ∙ ap (λ (t : ℕ). (tail + t) % 2 ^ k) e)

  pub host_publish-Keeps :
      (c : Channel D)
      → IsSynced (2 ^ k) elem_size c
      → Keeps (2 ^ k) elem_size c [] [] (host_publish (2 ^ k) elem_size c)
  unfolding host_publish flush advance_head
  host_publish-Keeps c v = (
    record {
      writer = (advance_head-IsValid k small v.writer).2;
      card_in = v.card_in;
      behind = omega (arith, used-card c v, used-next_head_idx k small v.writer, v.behind);
      register = mod-eq_of_lt (omega (arith, next_head_idx-lt k small v.writer));
    },
    append-nil (contents (2 ^ k) elem_size c)
        ∙ ap (window (2 ^ k) elem_size c.mem c.card_tail) (omega (arith, used-card c v)),
  )

  -- What the card takes is the oldest descriptor.
  take_oldest :
      (c : Channel D)
      → IsSynced (2 ^ k) elem_size c
      → (c.head_register == c.card_tail) ≡ false
      → let c' = record c { card_tail = (c.card_tail + 1) % (2 * 2 ^ k) } in
        IsSynced (2 ^ k) elem_size c'
        × (contents (2 ^ k) elem_size c
            ≡ c.mem (c.card_tail % 2 ^ k * elem_size) ∷ contents (2 ^ k) elem_size c')
  take_oldest c v filled =
      let some_left : 0 < used (2 ^ k) c.writer.head c.card_tail = ground (
        arith,
        used-cases (2 ^ k) c.writer.head c.card_tail v.writer.head_in v.card_in,
        v.register,
      ) in
      let one_less =
        used-retreat (2 ^ k) c.writer.head c.card_tail 1 v.writer.head_in v.card_in some_left in
      (
        record {
          writer = v.writer;
          card_in = mod-lt (c.card_tail + 1) (omega (arith, one-le-pow k 2));
          behind = omega (arith, one_less, v.behind);
          register = v.register;
        },
        ap (window (2 ^ k) elem_size c.mem c.card_tail)
              {y = suc (
                used (2 ^ k) c.writer.head ((c.card_tail + 1) % (2 * 2 ^ k))
                + c.writer.written_cnt)}
              (omega (arith, one_less))
            ∙ ap (λ l. c.mem (c.card_tail % 2 ^ k * elem_size) ∷ l)
                (window-mod (2 ^ k) elem_size c.mem (c.card_tail + 1)
                  ((c.card_tail + 1) % (2 * 2 ^ k)) _ (sym (slot-mod (2 ^ k) (c.card_tail + 1)))),
      )

  pub card_take-Keeps :
      (c : Channel D)
      → IsSynced (2 ^ k) elem_size c
      → let (c', taken) = card_take (2 ^ k) elem_size c in Keeps (2 ^ k) elem_size c [] taken c'
  unfolding card_take
  card_take-Keeps c v = elim (Bool-cases (c.head_register == c.card_tail)) [
    | inl empty ↦ rw (empty, card_take) (v, append-nil (contents (2 ^ k) elem_size c))
    | inr filled ↦
        let (v', e) = take_oldest c v filled in
        rw (filled, card_take) (v', append-nil (contents (2 ^ k) elem_size c) ∙ e)
  ]
