-- ===== src/Software/Logic/Send.antt =====
-- The packets that `send` makes of a write, a write with an immediate value or a read response.
use dtld_rdma_driver.Base.{
  ℕ, ◌+◌, ◌-◌, ◌^◌, ◌%◌, ◌<◌, ◌≤◌, ◌≡◌, ◌⊎◌, refl, sym, ap, ap₂, subst, ◌∙◌, inl, inr, true, false,
  ◌||◌, Option, some, none, List, [], ◌∷◌, ◌++◌, map, length, length-append, length-map, arith,
  if◌then◌else◌, Bool-cases, leb, leb_iff, add64,
}
use mathlib.Core.List.{append_assoc, append-nil}
use native.Mathlib.Nat.{mod-eq_of_lt}
use dtld_rdma_driver.Types.{pmtu_bytes}
use dtld_rdma_driver.Types.Psn.{wrapping_add}
use dtld_rdma_driver.Utils.{get_first_packet_max_length, calculate_packet_cnt}
use dtld_rdma_driver.Utils.Packets.{first_packet_ends_aligned}
use dtld_rdma_driver.Device.Work.{DescSge, ToCardWorkRbDesc}
use dtld_rdma_driver.Device.Opcode.{is_first}
use dtld_rdma_driver.Software.Payload.{
  PayloadInfo, no_payload, add, SgList, cut, sum_lengths, get_total_length, add_all, cut_all_levels,
}
use dtld_rdma_driver.Software.Payload.Bytes.{range, length-range, bytes_of, bytes_of-add, sge_bytes}
use dtld_rdma_driver.Software.Payload.Cut.{Usable, bytes_left, cut_lem}
use dtld_rdma_driver.Software.Request.{
  ToCardWriteDescriptor, to_write, of_desc, is_raw_packet, is_resp_opcode,
  write_only_opcode_with_imm, write_first_opcode,
}
use dtld_rdma_driver.Software.Logic.{
  Datagram, Sent, finished, write_meta, Cursor, send_rest, send_write_only_packet, send_write,
  meta_of, send,
}
use dtld_rdma_driver.Software.Logic.Boundary.{to_boundary_lem}
use dtld_rdma_driver.Software.Logic.Packets.{
  wire, packet, Packets, Packets-cons, Packets-at, Packets-count,
}
use dtld_rdma_driver.Software.Logic.Wires.{message_of, message, only_kind, begin_kind, wire-message}
use dtld_rdma_driver.Software.Logic.Rest.{Sends, emit-works, send_rest-Sends}

bytes_of-add_all :
    (elements : List DescSge) (p : PayloadInfo)
    → bytes_of (add_all elements p) ≡ bytes_of p ++ sge_bytes elements
unfolding add_all
bytes_of-add_all [] p = sym (append-nil (bytes_of p))
bytes_of-add_all (sge ∷ rest) p =
    bytes_of-add_all rest (add sge.addr sge.len p)
    ∙ ap (λ t. t ++ sge_bytes rest) (bytes_of-add sge.addr sge.len p)
    ∙ append_assoc (bytes_of p) (range sge.addr sge.len) (sge_bytes rest)

length-sge_bytes : (elements : List DescSge) → length (sge_bytes elements) ≡ sum_lengths elements
length-sge_bytes [] = refl
length-sge_bytes (sge ∷ rest) =
    length-append (range sge.addr sge.len) (sge_bytes rest)
    ∙ ap₂ (λ (a b : ℕ). a + b) (length-range sge.addr sge.len) (length-sge_bytes rest)

get_total_length_lem :
    (s : SgList) → length (bytes_left s) < 2 ^ 32 → get_total_length s ≡ length (bytes_left s)
unfolding get_total_length
get_total_length_lem s h = omega (arith, length-sge_bytes s.elements, h)

-- What a write must be to be sent as the specification says. A part of a message that neither
-- begins nor ends it must not fit into one packet.
pub record Sendable (req : ToCardWriteDescriptor) : Type 0 where
  pub usable : Usable req.sg_list
  pub small : length (bytes_left req.sg_list) < 2 ^ 32
  pub inside : req.common.raddr + length (bytes_left req.sg_list) < 2 ^ 64
  pub short :
      ((req.is_first || req.is_last) ≡ true)
      ⊎ (get_first_packet_max_length req.common.raddr (pmtu_bytes req.common.pmtu)
          < length (bytes_left req.sg_list))

not_leb : (a b : ℕ) → leb a b ≡ false → b < a
not_leb a b e = ground arith

marked_short :
    (req : ToCardWriteDescriptor)
    → Sendable req
    → length (bytes_left req.sg_list)
      ≤ get_first_packet_max_length req.common.raddr (pmtu_bytes req.common.pmtu)
    → (req.is_first || req.is_last) ≡ true
marked_short req s le = elim s.short [
  | inl marked ↦ marked
  | inr long ↦ absurd (omega (arith, long, le))
]

abbrev pub begins_of : ToCardWriteDescriptor → Option ℕ
begins_of req = if req.is_first then some req.common.total_len else none

module _ {E : Type 0} (agent : List Datagram → Datagram → Option E)
    (works : (sent : List Datagram) (d : Datagram) → agent sent d ≡ none)
    (req : ToCardWriteDescriptor) where
  abbrev Written : List Datagram → Sent E → Type 0
  Written sent result =
      Sends agent works req (meta_of req.common) (begins_of req) req.common.raddr req.common.psn
        (bytes_left req.sg_list) sent result

  send_only-Written :
      (sent : List Datagram)
      → (req.is_first || req.is_last) ≡ true
      → length (bytes_left req.sg_list)
        ≤ get_first_packet_max_length req.common.raddr (pmtu_bytes req.common.pmtu)
      → Written sent (send_write_only_packet agent req (write_meta req (meta_of req.common)) sent)
  unfolding send_write_only_packet write_only_opcode_with_imm cut_all_levels
  send_only-Written sent marked fits =
      let (payload, cleared) = cut_all_levels req.sg_list in
      let (opcode, imm) = write_only_opcode_with_imm req in
      let len = if is_first opcode then req.common.total_len else get_total_length cleared in
      (
        message (meta_of req.common) req opcode imm req.common.raddr len req.common.psn payload
            ∷ [],
        emit-works agent works req (meta_of req.common) _ sent (finished agent),
        (
          omega (arith, fits, to_boundary_lem req.common.pmtu req.common.raddr),
          wire-message req (meta_of req.common) opcode imm req.common.raddr len req.common.psn
                payload
              ∙ ap₂
                  (λ k bs.
                    packet (message_of req (meta_of req.common)) k req.common.raddr req.common.psn
                      bs)
                  (only_kind (is_resp_opcode req.opcode) req.imm req.is_first req.is_last
                    req.common.total_len (get_total_length cleared) marked)
                  (bytes_of-add_all req.sg_list.elements no_payload),
        ),
      )

  abbrev after_first : SgList → Cursor
  after_first t =
      let l = get_first_packet_max_length req.common.raddr (pmtu_bytes req.common.pmtu) in
      record {
        sg_list = t;
        cur_len = get_total_length req.sg_list - l;
        psn = wrapping_add req.common.psn 1;
        cur_va = add64 req.common.raddr l;
      }

  abbrev first_packet : PayloadInfo → Datagram
  first_packet p =
      let l = get_first_packet_max_length req.common.raddr (pmtu_bytes req.common.pmtu) in
      let opcode = write_first_opcode req in
      message (meta_of req.common) req opcode none req.common.raddr
        (if is_first opcode then req.common.total_len else l) req.common.psn p

  send_write-cut :
      (sent : List Datagram) (p : PayloadInfo) (t : SgList)
      → leb
          (get_total_length req.sg_list)
          (get_first_packet_max_length req.common.raddr (pmtu_bytes req.common.pmtu))
        ≡ false
      → cut (get_first_packet_max_length req.common.raddr (pmtu_bytes req.common.pmtu)) req.sg_list
        ≡ some (p, t)
      → send_write agent req (meta_of req.common) sent
        ≡ send_rest agent
            (get_total_length req.sg_list)
            req
            (write_meta req (meta_of req.common))
            (after_first t)
            (sent ++ first_packet p ∷ [])
  unfolding send_write
  send_write-cut sent p t more e =
      rw (more, e, send_write)
        (emit-works agent works req (meta_of req.common) _ sent (
          send_rest agent (get_total_length req.sg_list) req (write_meta req (meta_of req.common))
            (after_first t)))

  send_write-only :
      (sent : List Datagram)
      → leb
          (get_total_length req.sg_list)
          (get_first_packet_max_length req.common.raddr (pmtu_bytes req.common.pmtu))
        ≡ true
      → send_write agent req (meta_of req.common) sent
        ≡ send_write_only_packet agent req (write_meta req (meta_of req.common)) sent
  unfolding send_write
  send_write-only sent e = rw (e, send_write) refl

  -- The first of several packets and those after it.
  first-Written :
      (sent : List Datagram) (p : PayloadInfo) (t : SgList)
      → Sendable req
      → leb
          (get_total_length req.sg_list)
          (get_first_packet_max_length req.common.raddr (pmtu_bytes req.common.pmtu))
        ≡ false
      → cut (get_first_packet_max_length req.common.raddr (pmtu_bytes req.common.pmtu)) req.sg_list
        ≡ some (p, t)
      → bytes_of p ++ bytes_left t ≡ bytes_left req.sg_list
      → length (bytes_of p)
        ≡ get_first_packet_max_length req.common.raddr (pmtu_bytes req.common.pmtu)
      → Usable t
      → Written sent (send_write agent req (meta_of req.common) sent)
  unfolding write_first_opcode
  first-Written sent p t s more e joined size u =
      let m = message_of req (meta_of req.common) in
      let l = get_first_packet_max_length req.common.raddr (pmtu_bytes req.common.pmtu) in
      let va = req.common.raddr in
      let opcode = write_first_opcode req in
      let announced = if is_first opcode then req.common.total_len else l in
      let len = get_total_length_lem req.sg_list s.small in
      let sum = ap length (sym joined) ∙ length-append (bytes_of p) (bytes_left t) in
      let over = not_leb (get_total_length req.sg_list) l more in
      let (_, _, aligned) = first_packet_ends_aligned req.common.pmtu va in
      let no_wrap : add64 va l ≡ va + l = mod-eq_of_lt (omega (arith, s.inside, over, len)) in
      let (ds, e', ps) =
        send_rest-Sends agent works req (meta_of req.common) (get_total_length req.sg_list)
          (after_first t) (sent ++ first_packet p ∷ []) u (omega (arith, over)) (omega arith)
          (omega (arith, sum, size, len))
          (ap (λ (n : ℕ). n % pmtu_bytes req.common.pmtu) no_wrap ∙ aligned)
          (omega (arith, no_wrap, s.inside, over, len)) in
      (
        first_packet p ∷ ds,
        send_write-cut sent p t more e
            ∙ e'
            ∙ ap (finished agent) (append_assoc sent (first_packet p ∷ []) ds),
        subst
            (λ bs.
              Packets m req.is_last (begins_of req) va req.common.psn bs
                (wire (first_packet p) ∷ map wire ds))
            joined
            (Packets-cons m req.is_last (begins_of req) va req.common.psn (bytes_of p)
              (bytes_left t) (wire (first_packet p)) (map wire ds)
              (size ∙ to_boundary_lem req.common.pmtu req.common.raddr)
              (omega (arith, sum, size, over, len))
              (wire-message req (meta_of req.common) opcode none va announced req.common.psn p
                ∙ ap (λ k. packet m k va req.common.psn (bytes_of p))
                    (begin_kind (is_resp_opcode req.opcode) req.imm req.is_first
                      req.common.total_len l))
              (Packets-at m req.is_last none _ _ _ _ (bytes_left t) (map wire ds)
                (no_wrap
                  ∙ ap (λ (n : ℕ). req.common.raddr + n)
                      (to_boundary_lem req.common.pmtu req.common.raddr))
                refl ps)),
      )

  send_write-Written :
      (sent : List Datagram)
      → Sendable req
      → Written sent (send_write agent req (meta_of req.common) sent)
  send_write-Written sent s =
      let l = get_first_packet_max_length req.common.raddr (pmtu_bytes req.common.pmtu) in
      let len = get_total_length_lem req.sg_list s.small in
      elim (Bool-cases (leb (get_total_length req.sg_list) l)) [
        | inl fits ↦
            let le : length (bytes_left req.sg_list)
                ≤ get_first_packet_max_length req.common.raddr (pmtu_bytes req.common.pmtu) =
              omega (arith, (leb_iff (get_total_length req.sg_list) l).0 fits, len) in
            let (ds, e, ps) = send_only-Written sent (marked_short req s le) le in
            (ds, send_write-only sent fits ∙ e, ps)
        | inr more ↦
            let (p, t, e, joined, size, u) =
              cut_lem l req.sg_list s.usable
                (first_packet_ends_aligned req.common.pmtu req.common.raddr).0
                (omega (arith, not_leb (get_total_length req.sg_list) l more, len)) in
            first-Written sent p t s more e joined size u
      ]

-- What `send` makes of a request, in terms of the card's own view of it: packets as specified, as many
-- as `calculate_packet_cnt` says.
pub send-Packets :
    {E : Type 0} (agent : List Datagram → Datagram → Option E)
    → ((sent : List Datagram) (d : Datagram) → agent sent d ≡ none)
    → (d : ToCardWorkRbDesc) (req : ToCardWriteDescriptor) (sent : List Datagram)
    → of_desc d ≡ to_write req
    → is_raw_packet (to_write req) ≡ false
    → Sendable req
    → 0 < length (bytes_left req.sg_list)
    → (ds : List Datagram) × (send agent d sent ≡ finished agent (sent ++ ds))
      × Packets
          (message_of req (meta_of req.common))
          req.is_last
          (begins_of req)
          req.common.raddr
          req.common.psn
          (bytes_left req.sg_list)
          (map wire ds)
      × (length ds
          ≡ calculate_packet_cnt req.common.pmtu req.common.raddr (length (bytes_left req.sg_list)))
unfolding send
send-Packets agent works d req sent e cooked s pos =
    let m = message_of req (meta_of req.common) in
    let (ds, e', ps) = send_write-Written agent works req sent s in
    (
      ds,
      rw (e, cooked) e',
      ps,
      sym (length-map wire ds)
          ∙ Packets-count m req.is_last (begins_of req) req.common.raddr req.common.psn
              (bytes_left req.sg_list) (map wire ds) pos ps,
    )
