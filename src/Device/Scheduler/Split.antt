-- ===== src/Device/Scheduler/Split.antt =====
-- What `split_descriptor` makes of a request.
use dtld_rdma_driver.Base.{
  ℕ, zero, suc, ◌+◌, ◌<◌, ◌≡◌, refl, sym, inl, inr, false, Option, some, List, [], ◌∷◌, arith,
  ltb_iff, Bool-cases, All, ltb,
}
use dtld_rdma_driver.Types.{Pmtu}
use dtld_rdma_driver.Device.Work.{DescSge, ToCardWorkRbDesc, read, write, write_with_imm, read_resp}
use dtld_rdma_driver.Device.Scheduler.{
  new_from_sge, cut_from_sgl, mark_front, mark_back, split_descriptor,
  get_first_schedule_segment_length, start,
}
use native.Mathlib.Nat.{mod-lt, div-add-mod, add-mod_right, mul-mod_right}
use dtld_rdma_driver.Base.{◌*◌, ◌/◌, ◌-◌, ap, ◌∙◌, ◌^◌, ◌≤◌, ◌%◌}
use dtld_rdma_driver.Device.Work.{read, write, read_resp, write_with_imm}
use dtld_rdma_driver.Device.Scheduler.{
  Cursor, get_to_card_desc_common, get_total_len, is_read, sge0_of, segment, advance, split_loop,
}
use dtld_rdma_driver.Device.Scheduler.Pieces.{Marked, Plain, Pieces, Pieces-cons, request_of}
use dtld_rdma_driver.Device.Scheduler.Marks.{marks-Pieces, mark_back-Marked}
use dtld_rdma_driver.Device.Scheduler.Turn.{
  cut_from_sgl_lem, Ready, left_of, advance-Ready, advance-va, advance-remain_data_length,
  advance-base_psn,
}

-- The facts of one segment that a turn makes.
segment-Plain :
    (d : ToCardWorkRbDesc) (sge : DescSge) (c : Cursor)
    → is_read d ≡ false
    → sge.len ≡ c.this_length
    → Plain (segment d sge c)
      × (sge0_of (segment d sge c) ≡ sge)
      × ((get_to_card_desc_common (segment d sge c)).raddr ≡ c.current_va)
      × ((get_to_card_desc_common (segment d sge c)).psn ≡ c.base_psn)
      × (request_of (segment d sge c) ≡ request_of d)
unfolding segment get_to_card_desc_common get_total_len
segment-Plain (read _) sge c h e = absurd (cc)
segment-Plain (write _) sge c h e = ((refl, refl, refl, sym e), refl, refl, refl, refl)
segment-Plain (read_resp _) sge c h e = ((refl, refl, refl, sym e), refl, refl, refl, refl)
segment-Plain (write_with_imm _) sge c h e = ((refl, refl, refl, sym e), refl, refl, refl, refl)

module _ (size : ℕ) (desc : ToCardWorkRbDesc) (key : ℕ) where
  abbrev mtu : Pmtu
  mtu = (get_to_card_desc_common desc).pmtu

  abbrev Split : ℕ → Cursor → Option (List ToCardWorkRbDesc) → Type 0
  Split la c o =
      (ds : List ToCardWorkRbDesc) × (o ≡ some ds)
      × Pieces size mtu key desc c.current_va la c.base_psn c.remain_data_length ds
      × All Plain ds

  one_turn :
      is_read desc ≡ false
      → (fuel : ℕ) (c : Cursor) (la : ℕ) → 0 < c.remain_data_length
      → Ready size key la c
      → Split
          (la + c.this_length)
          (advance size mtu (left_of size mtu key la c) c)
          (split_loop size desc fuel (advance size mtu (left_of size mtu key la c) c))
      → Split la c (split_loop size desc (suc fuel) c)
  unfolding split_loop
  one_turn writes fuel c la h r (ds, e, pieces, plain) =
      let (is_plain, e0, ea, ep, eq) =
        segment-Plain desc (record { addr = la; len = c.this_length; key = key }) c writes refl in
      (
        segment desc (record { addr = la; len = c.this_length; key = key }) c ∷ ds,
        rw
            (
              (ltb_iff 0 c.remain_data_length).1 h,
              ap (cut_from_sgl c.this_length) (r.sgl h)
                  ∙ cut_from_sgl_lem la c.remain_data_length key c.this_length r.fits r.small,
              e,
            )
            refl,
        Pieces-cons size mtu key desc c.current_va la c.base_psn c.remain_data_length c.this_length
            _ ds (r.nonempty h) r.fits r.bounded r.ends e0 ea ep eq
            (rw
              (
                sym (advance-va size mtu key la c r),
                sym (advance-base_psn size mtu key la c),
                sym (advance-remain_data_length size mtu key la c r),
              )
              pieces),
        (is_plain, plain),
      )

  stopped :
      (fuel : ℕ) (c : Cursor) (la : ℕ)
      → ltb 0 c.remain_data_length ≡ false
      → Split la c (split_loop size desc (suc fuel) c)
  unfolding split_loop
  stopped fuel c la e = rw e ([], refl, ground arith, tt)

  split_loop-Split :
      is_read desc ≡ false
      → (fuel : ℕ) (c : Cursor) (la : ℕ) → 0 < size
      → c.remain_data_length < fuel
      → Ready size key la c
      → Split la c (split_loop size desc fuel c)
  split_loop-Split writes zero c la hs hf r = absurd (omega (arith, hf))
  split_loop-Split writes (suc fuel) c la hs hf r = elim (Bool-cases (ltb 0 c.remain_data_length)) [
    | inl more ↦
        let h = (ltb_iff 0 c.remain_data_length).0 more in
        one_turn writes fuel c la h r (
          split_loop-Split writes fuel _ (la + c.this_length) hs
            (omega
              (arith, advance-remain_data_length size mtu key la c r, hf, r.nonempty h, h, r.fits))
            (advance-Ready size mtu key la c hs h r))
    | inr end ↦ stopped fuel c la end
  ]

-- What a request must be to be split, and where its bytes are.
pub record Splittable (size : ℕ) (desc : ToCardWorkRbDesc) : Type 0 where
  pub writes : is_read desc ≡ false
  pub positive : 0 < size
  pub large : size ≤ get_total_len desc
  pub small : get_total_len desc < 2 ^ 32
  pub one_element : (sge0_of desc).len ≡ get_total_len desc
  pub room : (get_to_card_desc_common desc).raddr + get_total_len desc < 2 ^ 64
  pub room_here : (sge0_of desc).addr + get_total_len desc < 2 ^ 64

first_length :
    (size va : ℕ)
    → 0 < size
    → size < 2 ^ 32
    → get_first_schedule_segment_length va size ≡ size - va % size
unfolding get_first_schedule_segment_length
first_length size va h s = omega (arith, mod-lt va h)

rounded_up : (size va : ℕ) → 0 < size → va + (size - va % size) ≡ size * (va / size) + size
rounded_up size va h = omega (arith, div-add-mod va size, mod-lt va h)

aligned : (size va : ℕ) → 0 < size → (va + (size - va % size)) % size ≡ 0
aligned size va h =
    ap (λ (t : ℕ). t % size) (rounded_up size va h)
    ∙ add-mod_right (size * (va / size)) size
    ∙ mul-mod_right size (va / size)

not_below : (a b : ℕ) → b ≤ a → ltb a b ≡ false
not_below a b h = ground arith

marked :
    (total size va la psn key : ℕ) (desc : ToCardWorkRbDesc) (ds : List ToCardWorkRbDesc)
    → 0 < total
    → Pieces size (get_to_card_desc_common desc).pmtu key desc va la psn total ds
    → All Plain ds
    → Marked total (mark_back (mark_front total ds))
marked total size va la psn key desc [] h ps plain = absurd (omega (arith, ps))
marked total size va la psn key desc (d ∷ ds) h ps plain = mark_back-Marked total d ds plain

start-Ready :
    (size : ℕ) (desc : ToCardWorkRbDesc)
    → Splittable size desc
    → Ready size (sge0_of desc).key (sge0_of desc).addr (start size desc)
start-Ready size desc s =
    let va = (get_to_card_desc_common desc).raddr in
    let first = first_length size va s.positive (omega (arith, s.large, s.small)) in
    let below = mod-lt va s.positive in
    record {
      sgl = λ h. ap new_from_sge (ap (λ t. record (sge0_of desc) { len = t }) s.one_element);
      small = s.small;
      nonempty = λ _. omega (arith, first, below);
      fits = omega (arith, first, below, s.large);
      bounded = omega (arith, first, below);
      ends = inl (rw first (aligned size va s.positive));
      room = s.room;
      room_here = s.room_here;
    }

-- A write, a write with an immediate value or a read response whose data is one element of at
-- least `size` bytes, and does not reach the end of the address space, is split without a panic
-- into segments that cover its data without a gap, at the peer and here: each is a part of the same
-- request, is not empty, has at most `size` bytes, ends at a multiple of `size` of the peer's
-- addresses or where the data ends, and has the PSN that follows the packets before it. The first
-- segment alone is marked as first and carries the length of the message, the last alone is marked
-- as last, and the others carry their own length.
pub split_descriptor-Pieces :
    (size : ℕ) (desc : ToCardWorkRbDesc)
    → Splittable size desc
    → let common = get_to_card_desc_common desc in
      let sge = sge0_of desc in
      (ds : List ToCardWorkRbDesc) × (split_descriptor desc size ≡ some ds)
      × Pieces size common.pmtu sge.key desc common.raddr sge.addr common.psn
          (get_total_len desc)
          ds
      × Marked (get_total_len desc) ds
unfolding split_descriptor
split_descriptor-Pieces size desc s =
    let (ds, e, pieces, plain) =
      split_loop-Split size desc (sge0_of desc).key s.writes (suc (get_total_len desc))
        (start size desc) (sge0_of desc).addr s.positive (omega arith) (start-Ready size desc s) in
    (
      mark_back (mark_front (get_total_len desc) ds),
      rw (s.writes, not_below (get_total_len desc) size s.large, e) refl,
      marks-Pieces size _ _ desc (get_total_len desc) _ _ _ _ ds pieces,
      marked (get_total_len desc) size _ _ _ _ desc ds (omega (arith, s.positive, s.large)) pieces
          plain,
    )
