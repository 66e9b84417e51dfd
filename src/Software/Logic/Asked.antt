-- ===== src/Software/Logic/Asked.antt =====
-- The packets of a request, as its descriptor asks for them: the specification is read off the
-- descriptor alone.
use dtld_rdma_driver.Base.{
  ℕ, ◌<◌, ◌≡◌, refl, sym, ap, subst, ◌∙◌, Bool, true, false, Option, some, none, List, [], ◌∷◌,
  ◌++◌, map, length, length-map, if◌then◌else◌,
}
use dtld_rdma_driver.Types.{QpType, rc, uc, ud, raw_packet, xrc_send, xrc_recv}
use dtld_rdma_driver.Utils.{calculate_packet_cnt}
use dtld_rdma_driver.Device.Work.{
  DescSge, ToCardWorkRbDesc, ToCardWorkRbDescCommon, read, write, write_with_imm, read_resp,
  ToHostWorkRbDescTransType,
}
use dtld_rdma_driver.Device.Opcode.{rdma_write_only}
use dtld_rdma_driver.Software.Message.{trans_type_of}
use dtld_rdma_driver.Software.Payload.{new_with_sge_list, get_sge_from_option}
use dtld_rdma_driver.Software.Payload.Bytes.{range, sge_bytes}
use dtld_rdma_driver.Software.Payload.Cut.{bytes_left}
use dtld_rdma_driver.Software.Request.{
  ToCardWriteDescriptor, ToCardDescriptor, to_write, to_read, of_desc, is_raw_packet,
}
use dtld_rdma_driver.Software.Logic.{Datagram, finished, meta_of, send}
use dtld_rdma_driver.Software.Logic.Packets.{Wire, wire, Message, Packets, Packets-like}
use dtld_rdma_driver.Software.Logic.Wires.{message_of}
use dtld_rdma_driver.Software.Logic.Send.{Sendable, begins_of, send-Packets}

-- The transport of a kind of queue pair.
abbrev transport : QpType → ToHostWorkRbDescTransType
transport rc = ToHostWorkRbDescTransType.rc
transport uc = ToHostWorkRbDescTransType.uc
transport ud = ToHostWorkRbDescTransType.ud
transport raw_packet = ToHostWorkRbDescTransType.rc
transport xrc_send = ToHostWorkRbDescTransType.xrc
transport xrc_recv = ToHostWorkRbDescTransType.xrc

trans_type_of-transport : (t : QpType) → trans_type_of t ≡ transport t
unfolding trans_type_of
trans_type_of-transport rc = refl
trans_type_of-transport uc = refl
trans_type_of-transport ud = refl
trans_type_of-transport raw_packet = refl
trans_type_of-transport xrc_send = refl
trans_type_of-transport xrc_recv = refl

-- What all packets of a request have in common. (The opcode and the PSN are those of each packet.)
abbrev asked_message : ToCardWorkRbDescCommon → Bool → Option ℕ → Message
asked_message common is_resp imm = record {
  dqp_ip = common.dqp_ip;
  common_meta = record {
    tran_type = transport common.qp_type;
    opcode = rdma_write_only;
    solicited = false;
    pkey = common.msn;
    dqpn = common.dqpn;
    ack_req = false;
    psn = 0;
  };
  rkey = common.rkey;
  pmtu = common.pmtu;
  is_resp = is_resp;
  imm = imm;
}

abbrev bytes_then : Option DescSge → List ℕ → List ℕ
bytes_then none rest = rest
bytes_then (some sge) rest = range sge.addr sge.len ++ rest

-- The bytes of the elements of a request, in order.
abbrev bytes_of_elements : DescSge → Option DescSge → Option DescSge → Option DescSge → List ℕ
bytes_of_elements sge0 sge1 sge2 sge3 =
    range sge0.addr sge0.len ++ bytes_then sge1 (bytes_then sge2 (bytes_then sge3 []))

-- The packets of a message, or of a part of one, and their number.
abbrev AskedFor :
    ToCardWorkRbDescCommon → Bool → Option ℕ → Bool → Bool → List ℕ → List Wire → Type 0
AskedFor common is_resp imm is_first is_last bytes ws =
    Packets (asked_message common is_resp imm) is_last
      (if is_first then some common.total_len else none) common.raddr common.psn bytes ws
    × (length ws ≡ calculate_packet_cnt common.pmtu common.raddr (length bytes))

abbrev pub Asked : ToCardWorkRbDesc → List Wire → Type 0
Asked (read d) ws = false ≡ true
Asked (write d) ws =
    AskedFor d.common false none d.is_first d.is_last
      (bytes_of_elements d.sge0 d.sge1 d.sge2 d.sge3) ws
Asked (write_with_imm d) ws =
    AskedFor d.common false (some d.imm) d.is_first d.is_last
      (bytes_of_elements d.sge0 d.sge1 d.sge2 d.sge3) ws
Asked (read_resp d) ws =
    AskedFor d.common true none d.is_first d.is_last (bytes_of_elements d.sge0 d.sge1 d.sge2 d.sge3)
      ws

option-bytes :
    (o : Option DescSge) (rest : List DescSge)
    → sge_bytes ((get_sge_from_option o).0 ∷ rest) ≡ bytes_then o (sge_bytes rest)
unfolding get_sge_from_option
option-bytes none rest = refl
option-bytes (some sge) rest = refl

elements-bytes :
    (sge0 : DescSge) (sge1 sge2 sge3 : Option DescSge)
    → bytes_left (new_with_sge_list sge0 sge1 sge2 sge3) ≡ bytes_of_elements sge0 sge1 sge2 sge3
unfolding new_with_sge_list
elements-bytes sge0 sge1 sge2 sge3 =
    ap (λ l. range sge0.addr sge0.len ++ l)
      (option-bytes sge1 ((get_sge_from_option sge2).0 ∷ (get_sge_from_option sge3).0 ∷ [])
        ∙ ap (bytes_then sge1) (
            option-bytes sge2 ((get_sge_from_option sge3).0 ∷ [])
            ∙ ap (bytes_then sge2) (option-bytes sge3 [])))

-- What `send-Packets` shows of a request that the card has made of a descriptor.
abbrev Shown : ToCardWriteDescriptor → List Wire → Type 0
Shown req ws =
    Packets (message_of req (meta_of req.common)) req.is_last (begins_of req) req.common.raddr
      req.common.psn (bytes_left req.sg_list) ws
    × (length ws
        ≡ calculate_packet_cnt req.common.pmtu req.common.raddr (length (bytes_left req.sg_list)))

same_message :
    (common : ToCardWorkRbDescCommon) (is_resp : Bool) (imm : Option ℕ)
    → record (asked_message common is_resp imm) {
      common_meta = record (meta_of common) { psn = 0 };
    }
      ≡ asked_message common is_resp imm
same_message common is_resp imm = rw (trans_type_of-transport common.qp_type) refl

asked_for :
    (common : ToCardWorkRbDescCommon) (is_resp : Bool) (imm : Option ℕ) (is_first is_last : Bool)
    (sge0 : DescSge) (sge1 sge2 sge3 : Option DescSge) (ws : List Wire)
    → let bytes = bytes_left (new_with_sge_list sge0 sge1 sge2 sge3) in
      Packets
          (record (asked_message common is_resp imm) {
            common_meta = record (meta_of common) { psn = 0 };
          })
          is_last
          (if is_first then some common.total_len else none)
          common.raddr
          common.psn
          bytes
          ws
        × (length ws ≡ calculate_packet_cnt common.pmtu common.raddr (length bytes))
      → AskedFor common is_resp imm is_first is_last (bytes_of_elements sge0 sge1 sge2 sge3) ws
asked_for common is_resp imm is_first is_last sge0 sge1 sge2 sge3 ws (ps, count) =
    let same = elements-bytes sge0 sge1 sge2 sge3 in
    (
      Packets-like _ _ _ _ _ _ _ _ _ _ _ _ ws (same_message common is_resp imm) refl refl refl refl
          same ps,
      count ∙ ap (λ (bs : List ℕ). calculate_packet_cnt common.pmtu common.raddr (length bs)) same,
    )

abbrev write_of : ToCardDescriptor → ToCardWriteDescriptor → ToCardWriteDescriptor
write_of (to_write req) other = req
write_of (to_read req) other = other

Shown-Asked :
    (d : ToCardWorkRbDesc) (req : ToCardWriteDescriptor) (ws : List Wire)
    → of_desc d ≡ to_write req
    → Shown req ws
    → Asked d ws
unfolding of_desc
Shown-Asked (read d) req ws e shown = absurd (cc)
Shown-Asked (write d) req ws e shown =
    asked_for d.common false none d.is_first d.is_last d.sge0 d.sge1 d.sge2 d.sge3 ws
      (subst (λ r. Shown r ws) (sym (ap (λ t. write_of t req) e)) shown)
Shown-Asked (write_with_imm d) req ws e shown =
    asked_for d.common false (some d.imm) d.is_first d.is_last d.sge0 d.sge1 d.sge2 d.sge3 ws
      (subst (λ r. Shown r ws) (sym (ap (λ t. write_of t req) e)) shown)
Shown-Asked (read_resp d) req ws e shown =
    asked_for d.common true none d.is_first d.is_last d.sge0 d.sge1 d.sge2 d.sge3 ws
      (subst (λ r. Shown r ws) (sym (ap (λ t. write_of t req) e)) shown)

-- While the network takes everything, a write, a write with an immediate value or a read response is
-- sent without an error in the packets that its descriptor asks for: they carry the bytes of its
-- elements in order, each but the last up to the next multiple of the packet size at the peer, at the
-- addresses that follow from this and with consecutive PSNs; there are as many as
-- `calculate_packet_cnt` says; and each names the peer, its queue pair and transport, the message
-- number and the key. The first packet has the opcode of a first packet and announces the length of
-- the message exactly where the request begins one, the last has that of a last packet and the
-- immediate value where the request ends one, and a single packet that does both has that of an only
-- packet; the opcodes are those of a write or those of a read response. The elements are together
-- shorter than 2 ^ 32 bytes and do not reach the end of the address space, here and at the peer, a
-- write with an immediate value is not on a raw-packet queue pair, and a request that neither begins
-- nor ends a message does not fit into one packet.
pub send-Asked :
    {E : Type 0} (agent : List Datagram → Datagram → Option E)
    → ((sent : List Datagram) (d : Datagram) → agent sent d ≡ none)
    → (d : ToCardWorkRbDesc) (req : ToCardWriteDescriptor) (sent : List Datagram)
    → of_desc d ≡ to_write req
    → is_raw_packet (to_write req) ≡ false
    → Sendable req
    → 0 < length (bytes_left req.sg_list)
    → (ds : List Datagram) × (send agent d sent ≡ finished agent (sent ++ ds))
      × Asked d (map wire ds)
send-Asked agent works d req sent e cooked s pos =
    let (ds, e', ps, count) = send-Packets agent works d req sent e cooked s pos in
    (ds, e', Shown-Asked d req (map wire ds) e (ps, length-map wire ds ∙ count))
