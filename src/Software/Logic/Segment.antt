-- ===== src/Software/Logic/Segment.antt =====
-- One segment of a request, and what is sent before and after it.
use dtld_rdma_driver.Base.{
  ℕ, ◌+◌, ◌-◌, ◌%◌, ◌^◌, ◌<◌, ◌≤◌, ◌≡◌, ◌⊎◌, refl, sym, ap, subst, ◌∙◌, inl, inr, true, false, ◌||◌,
  Option, none, List, [], ◌∷◌, ◌++◌, map, arith, Bool-cases, ltb, ltb_iff,
}
use mathlib.Core.List.{append_assoc, map-append}
use native.Mathlib.Nat.{mod-eq_of_lt, mod-add-mod}
use dtld_rdma_driver.Types.{Pmtu, pmtu_bytes}
use dtld_rdma_driver.Types.Psn.{wrapping_add}
use dtld_rdma_driver.Utils.{calculate_packet_cnt}
use dtld_rdma_driver.Utils.Packets.{first_packet_ends_aligned}
use dtld_rdma_driver.Device.Work.{ToCardWorkRbDesc}
use dtld_rdma_driver.Device.Scheduler.{get_to_card_desc_common, is_read, sge0_of}
use dtld_rdma_driver.Device.Scheduler.Pieces.{is_first_of, is_last_of, request_of}
use dtld_rdma_driver.Software.Payload.Bytes.{range, length-range, range-append}
use dtld_rdma_driver.Software.Logic.{Datagram, Sent, finished, logged, send, send_batch}
use dtld_rdma_driver.Software.Logic.Packets.{
  wire, Packets, Packets-append, Packets-at, Packets-like,
}
use dtld_rdma_driver.Software.Logic.Shape.{
  message_at, cooked, OneElement, request_of-message_at, request_of-cooked, request_of-is_read,
  request_of-OneElement, OneElement-request_of, pmtu-message_at, Single,
}

module _ {E : Type 0} (agent : List Datagram → Datagram → Option E)
    (works : (sent : List Datagram) (datagram : Datagram) → agent sent datagram ≡ none)
    (desc : ToCardWorkRbDesc) where
  abbrev mtu : Pmtu
  mtu = (message_at desc).pmtu

  -- A batch is sent without an error in the packets of some bytes.
  abbrev pub Batch : Option ℕ → ℕ → ℕ → List ℕ → List Datagram → List ToCardWorkRbDesc → Type 0
  Batch begins va psn bytes sent ds =
      (es : List Datagram) × (send_batch agent ds sent ≡ (sent ++ es, []))
      × Packets (message_at desc) true begins va psn bytes (map wire es)

  send_batch-cons :
      (d : ToCardWorkRbDesc) (ds : List ToCardWorkRbDesc) (sent es fs : List Datagram)
      → send agent d sent ≡ finished agent (sent ++ es)
      → send_batch agent ds (sent ++ es) ≡ (sent ++ es ++ fs, [])
      → send_batch agent (d ∷ ds) sent ≡ (sent ++ (es ++ fs), [])
  unfolding send_batch
  send_batch-cons d ds sent es fs e f =
      ap
        (λ (s : Sent E). let r = send_batch agent ds s.datagrams in (r.0, logged agent s.error r.1))
        e
      ∙ f
      ∙ ap (λ t. (t, [])) (append_assoc sent es fs)

  pub send_batch-last :
      (d : ToCardWorkRbDesc) (sent es : List Datagram)
      → send agent d sent ≡ finished agent (sent ++ es)
      → send_batch agent (d ∷ []) sent ≡ (sent ++ es, [])
  unfolding send_batch
  send_batch-last d sent es e = rw e refl

  -- A part of a message and the parts after it.
  pub join :
      (begins : Option ℕ) (d : ToCardWorkRbDesc) (ds : List ToCardWorkRbDesc) (va la psn l n : ℕ)
      (sent es : List Datagram)
      → send agent d sent ≡ finished agent (sent ++ es)
      → Packets (message_at desc) false begins va psn (range la l) (map wire es)
      → Batch none
          (va + l)
          (wrapping_add psn (calculate_packet_cnt mtu va l))
          (range (la + l) (n - l))
          (sent ++ es)
          ds
      → 0 < l
      → l < n
      → (va + l) % pmtu_bytes mtu ≡ 0
      → Batch begins va psn (range la n) sent (d ∷ ds)
  join begins d ds va la psn l n sent es e ps (fs, f, qs) some_l more aligned = (
    es ++ fs,
    send_batch-cons d ds sent es fs e f,
    Packets-like (message_at desc) _ true _ begins _ va _ psn _ _ _ _ refl refl refl refl refl
        (range-append la l (n - l) ∙ ap (range la) (omega (arith, more)))
        (subst (Packets (message_at desc) true begins va psn (range la l ++ range (la + l) (n - l)))
          (sym (map-append wire es fs))
          (Packets-append (message_at desc) true begins va psn (range la l) (range (la + l) (n - l))
            (map wire es) (map wire fs)
            (ap (λ (t : ℕ). (va + t) % pmtu_bytes mtu) (length-range la l) ∙ aligned)
            (omega (arith, length-range la l, some_l))
            (omega (arith, length-range (la + l) (n - l), more)) ps
            (Packets-at (message_at desc) true none _ _ _ _ (range (la + l) (n - l)) (map wire fs)
              (ap (λ (t : ℕ). va + t) (sym (length-range la l)))
              (ap (λ (t : ℕ). wrapping_add psn (calculate_packet_cnt mtu va t))
                (sym (length-range la l)))
              qs))),
  )

module _ (size : ℕ) (d : ToCardWorkRbDesc) (desc : ToCardWorkRbDesc) (key : ℕ) where
  pub segment-message_at : request_of d ≡ request_of desc → message_at d ≡ message_at desc
  segment-message_at q =
      sym (request_of-message_at d) ∙ ap message_at q ∙ request_of-message_at desc

  -- A segment is a request of one element.
  pub segment-Single :
      (va la l : ℕ)
      → Single desc
      → sge0_of d ≡ record { addr = la; len = l; key = key }
      → (get_to_card_desc_common d).raddr ≡ va
      → request_of d ≡ request_of desc
      → 0 < l
      → l < 2 ^ 32
      → la + l < 2 ^ 64
      → va + l < 2 ^ 64
      → ((is_first_of d || is_last_of d) ≡ true) ⊎ (pmtu_bytes (message_at desc).pmtu < l)
      → Single d
  segment-Single va la l s e a q some_l small inside inside_there short = record {
    writes = sym (request_of-is_read d) ∙ ap is_read q ∙ request_of-is_read desc ∙ s.writes;
    not_raw_packet =
        sym (request_of-cooked d) ∙ ap cooked q ∙ request_of-cooked desc ∙ s.not_raw_packet;
    one = request_of-OneElement d (subst OneElement (sym q) (OneElement-request_of desc s.one));
    some_data = rw e some_l;
    small = rw e small;
    inside = rw e inside;
    inside_there = rw (a, e) inside_there;
    short = elim short [
      | inl marked ↦ inl marked
      | inr long ↦ inr (
          omega (
            arith,
            (first_packet_ends_aligned (get_to_card_desc_common d).pmtu
                (get_to_card_desc_common d).raddr).1,
            ap pmtu_bytes (pmtu-message_at d),
            ap (λ m. pmtu_bytes m.pmtu) (segment-message_at q),
            ap (λ g. g.len) e,
            long,
          ))
    ];
  }

zero_left : (n : ℕ) → n ≡ 0 + n
zero_left n = omega arith

not_ltb : (a b : ℕ) → ltb a b ≡ false → b ≤ a
not_ltb a b e = ground arith

pub full_block : (va l size : ℕ) → 0 < l → l ≤ size → va % size ≡ 0 → (va + l) % size ≡ 0 → l ≡ size
full_block va l size some_l le e h = elim (Bool-cases (ltb l size)) [
  | inl less ↦
      let below = (ltb_iff l size).0 less in
      let same : l % size ≡ l = mod-eq_of_lt below in
      let zero_rest : l % size ≡ 0 =
        ap (λ (t : ℕ). t % size) (zero_left l)
        ∙ ap (λ (t : ℕ). (t + l) % size) (sym e)
        ∙ mod-add-mod va size l
        ∙ h in
      absurd (omega (arith, some_l, same, zero_rest))
  | inr whole ↦ omega (arith, le, not_ltb l size whole)
]
