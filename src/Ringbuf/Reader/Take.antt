-- ===== src/Ringbuf/Reader/Take.antt =====
-- The reader takes slots that the card has filled, in their order.
use mathlib.Core.Path.{subst₂}
use native.Mathlib.Nat.{one-le-pow, mod-lt, mod-eq_of_lt, mod-add-mod}
use dtld_rdma_driver.Base.{
  ℕ, ◌+◌, ◌-◌, ◌*◌, ◌%◌, ◌^◌, ◌≤◌, ◌<◌, ◌≡◌, refl, ap, ◌∙◌, List, [], ◌∷◌, Option, Result, ok, err,
  Outcome, done, failed, waiting, arith, add64, false, if◌then◌else◌, Bool-cases, inl, inr,
}
use dtld_rdma_driver.Device.{DeviceError}
use dtld_rdma_driver.Ringbuf.{Slice, get_descriptor_mut_helper}
use dtld_rdma_driver.Ringbuf.Index.{used, slot-eq, slot-mod, is_empty-used}
use dtld_rdma_driver.Ringbuf.Reader.{
  Reader, Poll, would_it_empty, wait_head, next_tail_idx, is_full, advance_tail, descriptor_at,
  take_found, take_next, after_write_back, next_timeout, limit_in_millis,
}
use dtld_rdma_driver.Ringbuf.Reader.Invariant.{
  IsValid, HeadsFrom, next_tail_idx_lem, next_tail_idx-lt, used-next_tail_idx, written_back,
  written_back-IsValid,
}

-- A call takes the slot `s` from the reader `r` and leaves the reader `r'`. The slot is the one that
-- comes after those that `r` has taken, `read_cnt` slots on from its tail, and the next call goes on
-- right behind it; it is the last of the slots that `r'` has taken, all of which the card has filled.
pub record Taken (depth elem_size : ℕ) (r : Reader) (s : Slice) (r' : Reader) : Type 0 where
  pub valid : IsValid depth r'
  pub pending : 0 < r'.read_cnt
  pub next_slot : s.offset ≡ (r.tail + r.read_cnt) % depth * elem_size
  pub moved : (r'.tail + r'.read_cnt) % (2 * depth) ≡ (r.tail + r.read_cnt + 1) % (2 * depth)
  pub place : s.offset ≡ (r'.tail + (r'.read_cnt - 1)) % depth * elem_size
  pub extent : s.size ≡ elem_size
  pub inside : s.offset + elem_size ≤ depth * elem_size

-- The reader that polls the card: a full ring's tail has been written back.
abbrev pub settled : ℕ → Reader → Reader
settled depth r = if is_full depth r then written_back depth r else r

wait_head-done :
    (d idx limit : ℕ) (r : Reader) (polls : List Poll) (h : ℕ)
    → HeadsFrom d r polls
    → wait_head idx limit polls ≡ done h
    → (h < 2 * d)
      × (used d r.head r.tail ≤ used d h r.tail)
      × (used d h r.tail ≤ d)
      × (would_it_empty h idx ≡ false)
unfolding wait_head
wait_head-done d idx limit r [] h t e = absurd (cc)
wait_head-done d idx limit r (p ∷ ps) h t e =
    ground (arith, wait_head-done d idx limit r ps h t.1, t.0 h)

done-parts :
    {s s' : Slice} {v v' : Option ℕ} {r r' : Reader}
    → ◌≡◌ {A = Outcome Slice DeviceError × Option ℕ × Reader} (done s, v, r) (done s', v', r')
    → (s ≡ s') × (r ≡ r')
done-parts e = ground arith

take_found-done :
    (depth elem_size idx : ℕ) (v : Option ℕ) (r : Reader) (o : Outcome ℕ DeviceError) {s : Slice}
    {v' : Option ℕ} {r' : Reader}
    → take_found depth elem_size idx v r o ≡ (done s, v', r')
    → (h : ℕ) × (o ≡ done h)
      × (descriptor_at depth elem_size idx ≡ s)
      × (record r { head = h; read_cnt = add64 r.read_cnt 1 } ≡ r')
unfolding take_found
take_found-done depth elem_size idx v r (done h) e = let (p, q) = done-parts e in (h, refl, p, q)
take_found-done depth elem_size idx v r (failed x) e = absurd (cc)
take_found-done depth elem_size idx v r waiting e = absurd (cc)

module _ (k : ℕ) (small : 2 ^ k ≤ 2 ^ 31) (elem_size : ℕ)
    (addressable : 2 ^ k * elem_size < 2 ^ 64) where
  descriptor_at-place :
      {r : Reader}
      → IsValid (2 ^ k) r
      → (descriptor_at (2 ^ k) elem_size (next_tail_idx (2 ^ k) r)).offset
        ≡ (r.tail + r.read_cnt) % 2 ^ k * elem_size
  unfolding descriptor_at get_descriptor_mut_helper
  descriptor_at-place {r} v =
      rw (slot-eq k small, next_tail_idx_lem k small v, slot-mod)
        (mod-eq_of_lt (grind (arith, mod-lt (r.tail + r.read_cnt) {m = 2 ^ k}, one-le-pow k 2)))

  inside_slot : (i : ℕ) → i % 2 ^ k * elem_size + elem_size ≤ 2 ^ k * elem_size
  inside_slot i = grind (arith, mod-lt i {m = 2 ^ k}, one-le-pow k 2)

  -- Taking one more slot from a reader that has one, perhaps with a newer head.
  take_one :
      {r : Reader} (h : ℕ)
      → IsValid (2 ^ k) r
      → h < 2 * 2 ^ k
      → r.read_cnt < used (2 ^ k) h r.tail
      → used (2 ^ k) h r.tail ≤ 2 ^ k
      → Taken
          (2 ^ k)
          elem_size
          r
          (descriptor_at (2 ^ k) elem_size (next_tail_idx (2 ^ k) r))
          (record r { head = h; read_cnt = add64 r.read_cnt 1 })
  unfolding descriptor_at get_descriptor_mut_helper
  take_one {r} h v hh more fits = record {
    valid = record { head_in = hh; tail_in = v.tail_in; filled = omega arith; fits = fits };
    pending = omega arith;
    next_slot = descriptor_at-place v;
    moved = ap (λ (t : ℕ). t % (2 * 2 ^ k)) (omega arith);
    place = descriptor_at-place v ∙ ap (λ (t : ℕ). (r.tail + t) % 2 ^ k * elem_size) (omega arith);
    extent = refl;
    inside = rw (descriptor_at-place v) (inside_slot (r.tail + r.read_cnt));
  }

  more_left :
      {r : Reader} (h : ℕ)
      → IsValid (2 ^ k) r
      → h < 2 * 2 ^ k
      → r.read_cnt ≤ used (2 ^ k) h r.tail
      → used (2 ^ k) h r.tail ≤ 2 ^ k
      → would_it_empty h (next_tail_idx (2 ^ k) r) ≡ false
      → r.read_cnt < used (2 ^ k) h r.tail
  unfolding would_it_empty
  more_left {r} h v hh filled fits e =
      let later : IsValid (2 ^ k) (record r { head = h }) = record {
        head_in = hh;
        tail_in = v.tail_in;
        filled = filled;
        fits = fits;
      } in
      ground (
        arith,
        is_empty-used (2 ^ k) h (next_tail_idx (2 ^ k) r) hh (next_tail_idx-lt k small v),
        used-next_tail_idx k small later,
        next_tail_idx_lem k small v,
        next_tail_idx_lem k small later,
      )

  take_next-Taken :
      (limit : ℕ) (polls : List Poll) (v : Option ℕ) {r r' : Reader} {s : Slice} {v' : Option ℕ}
      → IsValid (2 ^ k) r
      → HeadsFrom (2 ^ k) r polls
      → take_next (2 ^ k) elem_size limit polls v r ≡ (done s, v', r')
      → Taken (2 ^ k) elem_size r s r'
  unfolding take_next
  take_next-Taken limit polls v {r} valid trusted e =
      elim (Bool-cases (would_it_empty r.head (next_tail_idx (2 ^ k) r))) [
        | inl empty ↦
            let (h, o, p, q) =
              take_found-done (2 ^ k) elem_size (next_tail_idx (2 ^ k) r) v r
                (wait_head (next_tail_idx (2 ^ k) r) limit polls) (rw (empty, take_next) at e) in
            let (hh, on, fits, found) = wait_head-done (2 ^ k) _ limit r polls h trusted o in
            subst₂ (Taken (2 ^ k) elem_size r) p q
              (take_one h valid hh (more_left h valid hh (omega arith) fits found) fits)
        | inr some_left ↦
            let (p, q) = done-parts (rw (some_left, take_next) at e) in
            subst₂ (Taken (2 ^ k) elem_size r) p q (
              take_one r.head valid valid.head_in
                (more_left r.head valid valid.head_in valid.filled valid.fits some_left) valid.fits)
      ]

  -- The slots that are taken after a write-back come behind those taken before it.
  written_back-Taken :
      {r r' : Reader} {s : Slice}
      → IsValid (2 ^ k) r
      → Taken (2 ^ k) elem_size (written_back (2 ^ k) r) s r'
      → Taken (2 ^ k) elem_size r s r'
  written_back-Taken {r} {r'} {s} v t = record {
    valid = t.valid;
    pending = t.pending;
    next_slot =
        t.next_slot
        ∙ ap (λ (i : ℕ). i % 2 ^ k * elem_size) (omega arith)
        ∙ ap (λ (i : ℕ). i * elem_size)
            (ap (λ (i : ℕ). i % 2 ^ k) (next_tail_idx_lem k small v)
              ∙ slot-mod (2 ^ k) (r.tail + r.read_cnt));
    moved =
        t.moved
        ∙ ap (λ (i : ℕ). i % (2 * 2 ^ k)) (omega (arith, next_tail_idx_lem k small v))
        ∙ mod-add-mod (r.tail + r.read_cnt) (2 * 2 ^ k) 1;
    place = t.place;
    extent = t.extent;
    inside = t.inside;
  }

  after_write_back-Taken :
      (limit : ℕ) (polls : List Poll) (reply : Result (Unit {0}) DeviceError) {r r' : Reader}
      {s : Slice} {v' : Option ℕ}
      → IsValid (2 ^ k) r
      → HeadsFrom (2 ^ k) (written_back (2 ^ k) r) polls
      → after_write_back (2 ^ k) elem_size limit polls (advance_tail (2 ^ k) reply r)
        ≡ (done s, v', r')
      → Taken (2 ^ k) elem_size r s r'
  unfolding after_write_back advance_tail
  after_write_back-Taken limit polls (ok _) valid trusted e =
      written_back-Taken valid
        (take_next-Taken limit polls _ (written_back-IsValid k small valid) trusted e)
  after_write_back-Taken limit polls (err x) valid trusted e = absurd (cc)

  -- `next_timeout` takes a slot only if the card has filled one that was not taken before. The slot
  -- is the one right behind those that were taken before the call, also when the call writes the
  -- tail of a full ring back first; it lies inside the buffer, the next call goes on right behind it,
  -- and the reader stays valid. This holds for every timeout and every answer of the card, if the
  -- heads that it reports are indices that only move on, and at most once around the ring.
  pub next_timeout-Taken :
      (limit : Option ℕ) (reply : Result (Unit {0}) DeviceError) (polls : List Poll) {r r' : Reader}
      {s : Slice} {value : Option ℕ}
      → IsValid (2 ^ k) r
      → HeadsFrom (2 ^ k) (settled (2 ^ k) r) polls
      → next_timeout (2 ^ k) elem_size limit reply polls r ≡ (done s, value, r')
      → Taken (2 ^ k) elem_size r s r'
  unfolding next_timeout
  next_timeout-Taken limit reply polls {r} v trusted e = elim (Bool-cases (is_full (2 ^ k) r)) [
    | inl full ↦
        after_write_back-Taken (limit_in_millis limit) polls reply v (rw full at trusted)
          (rw (full, next_timeout) at e)
    | inr room ↦
        take_next-Taken (limit_in_millis limit) polls _ v (rw room at trusted)
          (rw (room, next_timeout) at e)
  ]
