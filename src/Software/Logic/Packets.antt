-- ===== src/Software/Logic/Packets.antt =====
-- The specification of the packets of a write.
use dtld_rdma_driver.Base.{
  ℕ, ◌+◌, ◌%◌, ◌<◌, ◌≤◌, ◌≡◌, refl, sym, ap, subst, ◌∙◌, Bool, true, false, Option, some, none,
  List, [], ◌∷◌, ◌++◌, length, length-append, arith, if◌then◌else◌,
}
use mathlib.Core.List.{append_assoc}
use dtld_rdma_driver.Types.{Pmtu, pmtu_bytes}
use dtld_rdma_driver.Types.Psn.{wrapping_add}
use dtld_rdma_driver.Utils.{calculate_packet_cnt}
use dtld_rdma_driver.Utils.Packets.{calculate_packet_cnt-cut}
use dtld_rdma_driver.Device.Opcode.{
  ToHostWorkRbDescOpcode, is_first, rdma_write_first, rdma_write_middle, rdma_write_last,
  rdma_write_last_with_immediate, rdma_write_only, rdma_write_only_with_immediate,
  rdma_read_response_first, rdma_read_response_middle, rdma_read_response_last,
  rdma_read_response_only,
}
use dtld_rdma_driver.Software.Message.{RdmaMessageMetaCommon, Metadata, general, acknowledge}
use dtld_rdma_driver.Software.Payload.Bytes.{bytes_of}
use dtld_rdma_driver.Software.Logic.{Datagram, rdma, raw, rdma_port}
use dtld_rdma_driver.Software.Logic.Boundary.{
  to_boundary, ends_aligned, one_full, one_packet, next_psn,
}

-- A datagram with its bytes in one piece. The length in the header counts for the first packet of a
-- message alone: only there the receiver reads it.
pub record Wire : Type 0 where
  pub to : ℕ
  pub port : ℕ
  pub meta : Option Metadata
  pub bytes : List ℕ

abbrev pub announced : Metadata → Metadata
announced (general meta) = general (
    if is_first meta.common_meta.opcode
    then meta
    else record meta { reth = record meta.reth { len = 0 } })
announced (acknowledge meta) = acknowledge meta

abbrev pub wire : Datagram → Wire
wire (rdma to port msg) = record {
  to = to;
  port = port;
  meta = some (announced msg.meta_data);
  bytes = bytes_of msg.payload;
}
wire (raw to port payload) = record { to = to; port = port; meta = none; bytes = bytes_of payload }

-- What all packets of a message have in common.
pub record Message : Type 0 where
  pub dqp_ip : ℕ
  pub common_meta : RdmaMessageMetaCommon
  pub rkey : ℕ
  pub pmtu : Pmtu
  pub is_resp : Bool
  pub imm : Option ℕ

-- The opcode, the immediate value and the announced length of a packet, for an answer to a read or
-- not, from the immediate value of the message, from whether the message ends with the packet, and
-- from the length of the whole message where it begins with it.
abbrev pub kind : Bool → Option ℕ → Bool → Option ℕ → ToHostWorkRbDescOpcode × Option ℕ × ℕ
kind true imm true (some total) = (rdma_read_response_only, none, 0)
kind true imm true none = (rdma_read_response_last, none, 0)
kind true imm false (some total) = (rdma_read_response_first, none, total)
kind true imm false none = (rdma_read_response_middle, none, 0)
kind false none true (some total) = (rdma_write_only, none, 0)
kind false (some i) true (some total) = (rdma_write_only_with_immediate, some i, 0)
kind false none true none = (rdma_write_last, none, 0)
kind false (some i) true none = (rdma_write_last_with_immediate, some i, 0)
kind false none false (some total) = (rdma_write_first, none, total)
kind false (some i) false (some total) = (rdma_write_first, none, total)
kind false none false none = (rdma_write_middle, none, 0)
kind false (some i) false none = (rdma_write_middle, none, 0)

module _ (m : Message) where
  abbrev pub kind_of : Bool → Option ℕ → ToHostWorkRbDescOpcode × Option ℕ × ℕ
  kind_of ends begins = kind m.is_resp m.imm ends begins

  abbrev pub packet : ToHostWorkRbDescOpcode × Option ℕ × ℕ → ℕ → ℕ → List ℕ → Wire
  packet (opcode, imm, len) va psn bytes = record {
    to = m.dqp_ip;
    port = rdma_port;
    meta = some (
        general (record {
          common_meta = record m.common_meta { opcode = opcode; psn = psn };
          reth = record { va = va; rkey = m.rkey; len = len };
          imm = imm;
          secondary_reth = none;
        }));
    bytes = bytes;
  }

  abbrev pub room : ℕ → ℕ
  room va = to_boundary m.pmtu va

  -- The packets of a part of a message: the bytes in order, each packet but the last up to the next
  -- multiple of the packet size, and the numbers one after another.
  abbrev pub Packets : Bool → Option ℕ → ℕ → ℕ → List ℕ → List Wire → Type 0
  Packets ends begins va psn bytes [] = false ≡ true
  Packets ends begins va psn bytes (w ∷ []) =
      (length bytes ≤ room va) × (w ≡ packet (kind_of ends begins) va psn bytes)
  Packets ends begins va psn bytes (w ∷ v ∷ ws) =
      (now : List ℕ) × (later : List ℕ) × (now ++ later ≡ bytes)
      × (length now ≡ room va)
      × (0 < length later)
      × (w ≡ packet (kind_of false begins) va psn now)
      × Packets ends none (va + room va) (wrapping_add psn 1) later (v ∷ ws)

  pub Packets-cons :
      (ends : Bool) (begins : Option ℕ) (va psn : ℕ) (now later : List ℕ) (w : Wire)
      (ws : List Wire)
      → length now ≡ room va
      → 0 < length later
      → w ≡ packet (kind_of false begins) va psn now
      → Packets ends none (va + room va) (wrapping_add psn 1) later ws
      → Packets ends begins va psn (now ++ later) (w ∷ ws)
  Packets-cons ends begins va psn now later w [] size more e ps = absurd (cc)
  Packets-cons ends begins va psn now later w (v ∷ ws) size more e ps =
      (now, later, refl, size, more, e, ps)

  pub Packets-at :
      (ends : Bool) (begins : Option ℕ) (va va' psn psn' : ℕ) (xs : List ℕ) (ws : List Wire)
      → va ≡ va'
      → psn ≡ psn'
      → Packets ends begins va psn xs ws
      → Packets ends begins va' psn' xs ws
  Packets-at ends begins va va' psn psn' xs ws e f ps =
      subst (λ (t : ℕ). Packets ends begins va' t xs ws) f
        (subst (λ (t : ℕ). Packets ends begins t psn xs ws) e ps)

  pub Packets-append :
      (ends : Bool) (begins : Option ℕ) (va psn : ℕ) (xs ys : List ℕ) (ws vs : List Wire)
      → (va + length xs) % pmtu_bytes m.pmtu ≡ 0
      → 0 < length xs
      → 0 < length ys
      → Packets false begins va psn xs ws
      → Packets ends none
          (va + length xs)
          (wrapping_add psn (calculate_packet_cnt m.pmtu va (length xs)))
          ys
          vs
      → Packets ends begins va psn (xs ++ ys) (ws ++ vs)
  Packets-append ends begins va psn xs ys [] vs aligned some_xs some_ys ps qs = absurd (cc)
  Packets-append ends begins va psn xs ys (w ∷ []) vs aligned some_xs some_ys (size, e) qs =
      Packets-cons ends begins va psn xs ys w vs
        (one_full m.pmtu va (length xs) some_xs size aligned) some_ys e
        (Packets-at ends none _ _ _ _ ys vs
          (ap (λ (t : ℕ). va + t) (one_full m.pmtu va (length xs) some_xs size aligned))
          (ap (wrapping_add psn) (one_packet m.pmtu va (length xs) some_xs size)) qs)
  Packets-append ends begins va psn xs ys (w ∷ v ∷ ws) vs aligned some_xs some_ys
        (now, later, joined, size, more, e, ps) qs =
      let sum = ap length (sym joined) ∙ length-append now later in
      let (some_room, _, room_aligned) = ends_aligned m.pmtu va in
      (
        now,
        later ++ ys,
        sym (append_assoc now later ys) ∙ ap (λ t. t ++ ys) joined,
        size,
        omega (arith, length-append later ys, more),
        e,
        Packets-append ends none (va + room va) (wrapping_add psn 1) later ys (v ∷ ws) vs
            (ap (λ (t : ℕ). t % pmtu_bytes m.pmtu) (omega (arith, sum, size)) ∙ aligned) more
            some_ys ps
            (Packets-at ends none _ _ _ _ ys vs (omega (arith, sum, size))
              (next_psn m.pmtu va psn (length xs) (room va) (length later) some_room more
                room_aligned refl (sum ∙ ap (λ (t : ℕ). t + length later) size))
              qs),
      )

  pub Packets-count :
      (ends : Bool) (begins : Option ℕ) (va psn : ℕ) (bytes : List ℕ) (ws : List Wire)
      → 0 < length bytes
      → Packets ends begins va psn bytes ws
      → length ws ≡ calculate_packet_cnt m.pmtu va (length bytes)
  Packets-count ends begins va psn bytes [] pos ps = absurd (cc)
  Packets-count ends begins va psn bytes (w ∷ []) pos (fits, _) =
      sym (one_packet m.pmtu va (length bytes) pos fits)
  Packets-count ends begins va psn bytes (w ∷ v ∷ ws) pos (now, later, joined, size, more, e, ps) =
      let sum = ap length (sym joined) ∙ length-append now later in
      let (some_room, _, room_aligned) = ends_aligned m.pmtu va in
      omega (
        arith,
        Packets-count ends none (va + room va) (wrapping_add psn 1) later (v ∷ ws) more ps,
        ap (calculate_packet_cnt m.pmtu va) (sum ∙ ap (λ (t : ℕ). t + length later) size),
        calculate_packet_cnt-cut m.pmtu va (room va) (length later) some_room more room_aligned,
        one_packet m.pmtu va (room va) some_room (omega arith),
      )

pub Packets-like :
    (m m' : Message) (ends ends' : Bool) (begins begins' : Option ℕ) (va va' psn psn' : ℕ)
    (xs xs' : List ℕ) (ws : List Wire)
    → m ≡ m'
    → ends ≡ ends'
    → begins ≡ begins'
    → va ≡ va'
    → psn ≡ psn'
    → xs ≡ xs'
    → Packets m ends begins va psn xs ws
    → Packets m' ends' begins' va' psn' xs' ws
Packets-like m m' ends ends' begins begins' va va' psn psn' xs xs' ws e1 e2 e3 e4 e5 e6 ps =
    rw (sym e1, sym e2, sym e3, sym e4, sym e5, sym e6) ps
