-- ===== src/Software/Logic/Whole.antt =====
-- Sending a request in segments and sending it at once.
use dtld_rdma_driver.Base.{
  ℕ, ◌+◌, ◌%◌, ◌<◌, ◌≡◌, refl, sym, ap, ap₂, subst, ◌∙◌, inl, Bool, true, false, Option, some, none,
  List, [], ◌∷◌, ◌++◌, map, length, length-append, arith,
}
use dtld_rdma_driver.Types.{pmtu_bytes}
use dtld_rdma_driver.Types.Psn.{wrapping_add}
use dtld_rdma_driver.Device.Work.{ToCardWorkRbDesc}
use dtld_rdma_driver.Device.Scheduler.{
  get_to_card_desc_common, get_total_len, sge0_of, split_descriptor,
}
use dtld_rdma_driver.Device.Scheduler.Pieces.{Pieces, is_first_of, is_last_of}
use dtld_rdma_driver.Device.Scheduler.Split.{Splittable, split_descriptor-Pieces}
use dtld_rdma_driver.Software.Payload.Bytes.{range}
use dtld_rdma_driver.Software.Logic.{Datagram, finished, send, send_batch}
use dtld_rdma_driver.Software.Logic.Packets.{
  wire, Wire, Message, Packets, packet, kind_of, room, Packets-like,
}
use dtld_rdma_driver.Software.Logic.Shape.{
  message_at, cooked, OneElement, pmtu-message_at, Single, single-Packets,
}
use dtld_rdma_driver.Software.Logic.Segments.{segments-Packets, begun}

same_parts :
    (xs ys xs' ys' : List ℕ)
    → xs ++ ys ≡ xs' ++ ys'
    → length xs ≡ length xs'
    → (xs ≡ xs') × (ys ≡ ys')
same_parts [] ys [] ys' e h = (refl, e)
same_parts [] ys (x ∷ xs') ys' e h = absurd (omega (arith, h))
same_parts (x ∷ xs) ys [] ys' e h = absurd (omega (arith, h))
same_parts (x ∷ xs) ys (x' ∷ xs') ys' e h =
    let (a, b) = same_parts xs ys xs' ys' (cc) (omega (arith, h)) in (cc, b)

-- The specification leaves one choice of the packets.
Packets-unique :
    (m : Message) (ends : Bool) (begins : Option ℕ) (va psn : ℕ) (bytes : List ℕ)
    (ws vs : List Wire)
    → Packets m ends begins va psn bytes ws
    → Packets m ends begins va psn bytes vs
    → ws ≡ vs
Packets-unique m ends begins va psn bytes [] vs ps qs = absurd (cc)
Packets-unique m ends begins va psn bytes (w ∷ []) [] ps qs = absurd (cc)
Packets-unique m ends begins va psn bytes (w ∷ []) (v ∷ []) (_, e) (_, f) =
    ap (λ t. t ∷ []) (e ∙ sym f)
Packets-unique m ends begins va psn bytes (w ∷ []) (v ∷ v' ∷ vs) (le, _)
      (now, later, joined, size, more, _, _) =
    absurd (omega (arith, le, size, more, ap length joined, length-append now later))
Packets-unique m ends begins va psn bytes (w ∷ w' ∷ ws) [] ps qs = absurd (cc)
Packets-unique m ends begins va psn bytes (w ∷ w' ∷ ws) (v ∷ [])
      (now, later, joined, size, more, _, _) (le, _) =
    absurd (omega (arith, le, size, more, ap length joined, length-append now later))
Packets-unique m ends begins va psn bytes (w ∷ w' ∷ ws) (v ∷ v' ∷ vs)
      (now, later, joined, size, more, e, ps) (now', later', joined', size', more', f, qs) =
    let (a, b) = same_parts now later now' later' (joined ∙ sym joined') (size ∙ sym size') in
    ap₂ (λ t ts. t ∷ ts) (e ∙ ap (λ t. packet m (kind_of m false begins) va psn t) a ∙ sym f)
      (Packets-unique m ends none (va + room m va) (wrapping_add psn 1) later (w' ∷ ws) (v' ∷ vs) ps
        (subst (λ t. Packets m ends none (va + room m va) (wrapping_add psn 1) t (v' ∷ vs)) (sym b)
          qs))

-- A request as the user makes it, of one element and too large for the scheduler to pass on as it is.
pub record Scheduled (size : ℕ) (desc : ToCardWorkRbDesc) : Type 0 where
  pub splittable : Splittable size desc
  pub not_raw_packet : cooked desc ≡ true
  pub one : OneElement desc
  pub begins : is_first_of desc ≡ true
  pub ends : is_last_of desc ≡ true
  pub multiple : size % pmtu_bytes (get_to_card_desc_common desc).pmtu ≡ 0
  pub larger : pmtu_bytes (get_to_card_desc_common desc).pmtu < size

scheduled-Single : (size : ℕ) (desc : ToCardWorkRbDesc) → Scheduled size desc → Single desc
scheduled-Single size desc s =
    let p = s.splittable in
    record {
      writes = p.writes;
      not_raw_packet = s.not_raw_packet;
      one = s.one;
      some_data = omega (arith, p.one_element, p.large, p.positive);
      small = omega (arith, p.one_element, p.small);
      inside = omega (arith, p.one_element, p.room_here);
      inside_there = omega (arith, p.one_element, p.room);
      short = inl (rw s.begins refl);
    }

-- For a request of the user of one element, a scheduler size that is a multiple of the packet size and larger than it, and a
-- network that takes everything, the scheduler and the card together send exactly the packets that
-- the card sends of the request as a whole: what the scheduler splits the request into is sent, part
-- by part and without an error, in packets with the same addresses, opcodes, PSNs, immediate values and bytes in the
-- same order. The length in the header is compared in first packets alone. The request has at least
-- as many bytes as the scheduler's size and less than 2 ^ 32, and does not reach the end of the address space.
pub send_batch-split_descriptor :
    {E : Type 0} (agent : List Datagram → Datagram → Option E)
    → ((sent : List Datagram) (d : Datagram) → agent sent d ≡ none)
    → (size : ℕ) (desc : ToCardWorkRbDesc) (sent : List Datagram) → Scheduled size desc
    → (ds : List ToCardWorkRbDesc) × (es : List Datagram) × (whole : List Datagram)
      × (split_descriptor desc size ≡ some ds)
      × (send_batch agent ds sent ≡ (sent ++ es, []))
      × (send agent desc sent ≡ finished agent (sent ++ whole))
      × (map wire es ≡ map wire whole)
send_batch-split_descriptor agent works size desc sent s =
    let p = s.splittable in
    let single = scheduled-Single size desc s in
    let (ds, split, pieces, marked) = split_descriptor-Pieces size desc p in
    let (whole, e, ps) = single-Packets desc agent works single sent in
    let (es, f, qs) =
      segments-Packets agent works size desc (sge0_of desc).key single (get_total_len desc) ds _ _ _
        _ sent (rw (sym (pmtu-message_at desc)) s.multiple)
        (rw (sym (pmtu-message_at desc)) s.larger)
        (subst
          (λ m.
            Pieces size m (sge0_of desc).key desc (get_to_card_desc_common desc).raddr
              (sge0_of desc).addr (get_to_card_desc_common desc).psn (get_total_len desc) ds)
          (pmtu-message_at desc) pieces)
        marked p.small p.room_here p.room in
    (
      ds,
      es,
      whole,
      split,
      f,
      e,
      Packets-unique (message_at desc) true (some (get_total_len desc)) _ _ _ (map wire es)
          (map wire whole) qs
          (Packets-like (message_at desc) (message_at desc) _ _ _ _ _ _ _ _ _ _ (map wire whole)
            refl s.ends (begun desc _ s.begins refl) refl refl
            (ap (range (sge0_of desc).addr) p.one_element) ps),
    )
