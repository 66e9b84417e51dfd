-- ===== src/Software/Logic/Shape.antt =====
-- A request of one element, as the card in software sees it.
use dtld_rdma_driver.Base.{
  ℕ, ◌+◌, ◌^◌, ◌<◌, ◌≡◌, ◌⊎◌, refl, sym, ap, ap₂, subst, ◌∙◌, Bool, true, false, ◌||◌, Option, some,
  none, List, ◌++◌, map, length, arith, if◌then◌else◌,
}
use mathlib.Core.List.{append-nil}
use dtld_rdma_driver.Types.{pmtu_bytes}
use dtld_rdma_driver.Utils.{get_first_packet_max_length}
use dtld_rdma_driver.Device.Work.{
  DescSge, ToCardWorkRbDesc, ToCardWorkRbDescCommon, read, write, write_with_imm, read_resp,
}
use dtld_rdma_driver.Device.Scheduler.{get_to_card_desc_common, is_read, segment, sge0_of}
use dtld_rdma_driver.Device.Scheduler.Pieces.{is_first_of, is_last_of, request_of}
use dtld_rdma_driver.Software.Payload.{new_with_sge_list, get_sge_from_option}
use dtld_rdma_driver.Software.Payload.Bytes.{range, length-range}
use dtld_rdma_driver.Software.Payload.Cut.{Usable, bytes_left}
use dtld_rdma_driver.Software.Request.{
  ToCardWriteDescriptor, to_write, of_desc, is_raw_type, is_raw_packet,
}
use dtld_rdma_driver.Software.Logic.{Datagram, finished, meta_of, send}
use dtld_rdma_driver.Software.Logic.Packets.{wire, Message, Packets, Packets-like}
use dtld_rdma_driver.Software.Logic.Wires.{message_of}
use dtld_rdma_driver.Software.Logic.Send.{Sendable, send-Packets}

abbrev with_resp : ToCardWorkRbDescCommon → Bool → Option ℕ → Message
with_resp common resp imm = record {
  dqp_ip = common.dqp_ip;
  common_meta = record (meta_of common) { psn = 0 };
  rkey = common.rkey;
  pmtu = common.pmtu;
  is_resp = resp;
  imm = imm;
}

-- What the packets of a request have in common.
abbrev pub message_at : ToCardWorkRbDesc → Message
message_at (read d) = with_resp d.common false none
message_at (write d) = with_resp d.common false none
message_at (write_with_imm d) = with_resp d.common false (some d.imm)
message_at (read_resp d) = with_resp d.common true none

-- A request that is not sent as a raw packet.
abbrev pub cooked : ToCardWorkRbDesc → Bool
cooked (write_with_imm d) = if is_raw_type d.common.qp_type then false else true
cooked _ = true

-- A request whose data is in its first element.
abbrev pub OneElement : ToCardWorkRbDesc → Type 0
OneElement (read d) = Unit
OneElement (write d) = (d.sge1 ≡ none) × (d.sge2 ≡ none) × (d.sge3 ≡ none)
OneElement (read_resp d) = (d.sge1 ≡ none) × (d.sge2 ≡ none) × (d.sge3 ≡ none)
OneElement (write_with_imm d) = (d.sge1 ≡ none) × (d.sge2 ≡ none) × (d.sge3 ≡ none)

-- These do not depend on what a segment changes.
pub request_of-message_at : (d : ToCardWorkRbDesc) → message_at (request_of d) ≡ message_at d
unfolding segment
request_of-message_at (read d) = refl
request_of-message_at (write d) = refl
request_of-message_at (read_resp d) = refl
request_of-message_at (write_with_imm d) = refl

pub request_of-cooked : (d : ToCardWorkRbDesc) → cooked (request_of d) ≡ cooked d
unfolding segment
request_of-cooked (read d) = refl
request_of-cooked (write d) = refl
request_of-cooked (read_resp d) = refl
request_of-cooked (write_with_imm d) = refl

pub request_of-is_read : (d : ToCardWorkRbDesc) → is_read (request_of d) ≡ is_read d
unfolding segment
request_of-is_read (read d) = refl
request_of-is_read (write d) = refl
request_of-is_read (read_resp d) = refl
request_of-is_read (write_with_imm d) = refl

pub OneElement-request_of : (d : ToCardWorkRbDesc) → OneElement d → OneElement (request_of d)
unfolding segment
OneElement-request_of (read d) o = o
OneElement-request_of (write d) o = o
OneElement-request_of (read_resp d) o = o
OneElement-request_of (write_with_imm d) o = o

pub request_of-OneElement : (d : ToCardWorkRbDesc) → OneElement (request_of d) → OneElement d
unfolding segment
request_of-OneElement (read d) o = o
request_of-OneElement (write d) o = o
request_of-OneElement (read_resp d) o = o
request_of-OneElement (write_with_imm d) o = o

pub pmtu-message_at :
    (d : ToCardWorkRbDesc) → (get_to_card_desc_common d).pmtu ≡ (message_at d).pmtu
unfolding get_to_card_desc_common
pmtu-message_at (read d) = refl
pmtu-message_at (write d) = refl
pmtu-message_at (read_resp d) = refl
pmtu-message_at (write_with_imm d) = refl

-- A request of the card that is made of a descriptor.
record Shown (d : ToCardWorkRbDesc) (req : ToCardWriteDescriptor) : Type 0 where
  made : of_desc d ≡ to_write req
  raw : is_raw_packet (to_write req) ≡ false
  same : message_of req (meta_of req.common) ≡ message_at d
  starts : req.is_first ≡ is_first_of d
  ends : req.is_last ≡ is_last_of d
  common : req.common ≡ get_to_card_desc_common d
  only : req.sg_list ≡ new_with_sge_list (sge0_of d) none none none

not_raw : (b : Bool) → (if b then false else true) ≡ true → b ≡ false
not_raw true e = absurd (cc)
not_raw false e = refl

shown :
    (d : ToCardWorkRbDesc)
    → is_read d ≡ false
    → cooked d ≡ true
    → OneElement d
    → (req : ToCardWriteDescriptor) × Shown d req
unfolding of_desc is_raw_packet get_to_card_desc_common
shown (read d) writes c o = absurd (cc)
shown (write d) writes c (o1, o2, o3) = (
  _,
  record {
    made = refl;
    raw = refl;
    same = refl;
    starts = refl;
    ends = refl;
    common = refl;
    only = rw (o1, o2, o3) refl;
  },
)
shown (read_resp d) writes c (o1, o2, o3) = (
  _,
  record {
    made = refl;
    raw = refl;
    same = refl;
    starts = refl;
    ends = refl;
    common = refl;
    only = rw (o1, o2, o3) refl;
  },
)
shown (write_with_imm d) writes c (o1, o2, o3) = (
  _,
  record {
    made = refl;
    raw = not_raw (is_raw_type d.common.qp_type) c;
    same = refl;
    starts = refl;
    ends = refl;
    common = refl;
    only = rw (o1, o2, o3) refl;
  },
)

one-bytes :
    (sge : DescSge) → bytes_left (new_with_sge_list sge none none none) ≡ range sge.addr sge.len
unfolding new_with_sge_list get_sge_from_option
one-bytes sge = append-nil (range sge.addr sge.len)

one-Usable :
    (sge : DescSge) → sge.addr + sge.len < 2 ^ 64 → Usable (new_with_sge_list sge none none none)
unfolding new_with_sge_list get_sge_from_option
one-Usable sge h = (h, (refl, (refl, (refl, tt))))

module _ (d : ToCardWorkRbDesc) where
  abbrev common : ToCardWorkRbDescCommon
  common = get_to_card_desc_common d

  -- What a request of one element must be to be sent as the specification says.
  pub record Single : Type 0 where
    pub writes : is_read d ≡ false
    pub not_raw_packet : cooked d ≡ true
    pub one : OneElement d
    pub some_data : 0 < (sge0_of d).len
    pub small : (sge0_of d).len < 2 ^ 32
    pub inside : (sge0_of d).addr + (sge0_of d).len < 2 ^ 64
    pub inside_there : (get_to_card_desc_common d).raddr + (sge0_of d).len < 2 ^ 64
    pub short :
        ((is_first_of d || is_last_of d) ≡ true)
        ⊎ (get_first_packet_max_length
              (get_to_card_desc_common d).raddr
              (pmtu_bytes (get_to_card_desc_common d).pmtu)
            < (sge0_of d).len)

  abbrev pub begins_at : Option ℕ
  begins_at = if is_first_of d then some (get_to_card_desc_common d).total_len else none

  Shown-length :
      (req : ToCardWriteDescriptor)
      → Shown d req
      → length (bytes_left req.sg_list) ≡ (sge0_of d).len
  Shown-length req w =
      ap length (ap bytes_left w.only ∙ one-bytes (sge0_of d))
      ∙ length-range (sge0_of d).addr (sge0_of d).len

  Shown-Sendable : (req : ToCardWriteDescriptor) → Single → Shown d req → Sendable req
  Shown-Sendable req s w =
      let size = Shown-length req w in
      record {
        usable = subst Usable (sym w.only) (one-Usable (sge0_of d) s.inside);
        small = omega (arith, size, s.small);
        inside = omega (arith, size, ap (λ c. c.raddr) w.common, s.inside_there);
        short = rw (w.common, w.starts, w.ends, size) s.short;
      }

  module _ {E : Type 0} (agent : List Datagram → Datagram → Option E)
      (works : (sent : List Datagram) (datagram : Datagram) → agent sent datagram ≡ none) where
    pub single-Packets :
        Single
        → (sent : List Datagram)
        → (ds : List Datagram) × (send agent d sent ≡ finished agent (sent ++ ds))
          × Packets
              (message_at d)
              (is_last_of d)
              begins_at
              common.raddr
              common.psn
              (range (sge0_of d).addr (sge0_of d).len)
              (map wire ds)
    single-Packets s sent =
        let (req, w) = shown d s.writes s.not_raw_packet s.one in
        let bytes = ap bytes_left w.only ∙ one-bytes (sge0_of d) in
        let (ds, e, ps, _) =
          send-Packets agent works d req sent w.made w.raw (Shown-Sendable req s w)
            (omega (arith, Shown-length req w, s.some_data)) in
        (
          ds,
          e,
          Packets-like _ _ _ _ _ _ _ _ _ _ _ _ (map wire ds) w.same w.ends
              (ap₂ (λ (b : Bool) (c : ToCardWorkRbDescCommon). if b then some c.total_len else none)
                w.starts w.common)
              (ap (λ c. c.raddr) w.common) (ap (λ c. c.psn) w.common) bytes ps,
        )
