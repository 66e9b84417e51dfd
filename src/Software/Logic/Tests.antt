-- ===== src/Software/Logic/Tests.antt =====
-- Requests that the card in software sends.
use dtld_rdma_driver.Base.{
  ◌≤◌, ◌^◌, ◌↔◌, All, sym, subst, ℕ, ◌<◌, ◌≡◌, refl, inl, Bool, true, false, Option, some, none,
  List, [], ◌∷◌, ◌++◌, map, length, arith,
}
use dtld_rdma_driver.Types.Psn.{wrapping_add}
use dtld_rdma_driver.Utils.{calculate_packet_cnt, get_first_packet_max_length}
use dtld_rdma_driver.Device.Work.{ToCardWorkRbDesc, write, common_default}
use dtld_rdma_driver.Device.Scheduler.{get_to_card_desc_common, get_total_len, split_descriptor}
use dtld_rdma_driver.Software.Message.{common_meta_of, Metadata, general, acknowledge}
use dtld_rdma_driver.Software.Payload.{
  new_with_sge_list, get_sge_from_option, cut, cut_below, cut_levels, add, get_total_length,
}
use dtld_rdma_driver.Software.Payload.Cut.{bytes_left}
use dtld_rdma_driver.Software.Request.{
  ToCardWriteDescriptor, to_write, of_desc, is_raw_packet, write_first_opcode, write_middle_opcode,
  write_last_opcode_with_imm,
}
use dtld_rdma_driver.Software.Request
use dtld_rdma_driver.Software.Logic.{
  Datagram, finished, send, send_write, send_rest, send_last, emit, send_batch,
}
use dtld_rdma_driver.Software.Logic.Packets.{wire}
use dtld_rdma_driver.Software.Logic.Send.{Sendable}
use dtld_rdma_driver.Software.Logic.Asked.{Asked, send-Asked}
use dtld_rdma_driver.Software.Logic.Delivery.{mem, sent_psns, send-is_complete}
use dtld_rdma_driver.Checker.Window.{is_complete}
use dtld_rdma_driver.Checker.Window
use dtld_rdma_driver.Checker.Window.Record.{record_all}
use dtld_rdma_driver.Software.Logic.Whole.{Scheduled, send_batch-split_descriptor}

abbrev agent : List Datagram → Datagram → Option Bool
agent sent d = none

-- 1200 bytes from address 300 on.
abbrev request : ToCardWorkRbDesc
request = write (record {
  common = record common_default { total_len = 1200; raddr = 300; psn = 16777214 };
  is_last = true;
  is_first = true;
  sge0 = record { addr = 4096; len = 1200; key = 7 };
  sge1 = none;
  sge2 = none;
  sge3 = none;
})

abbrev req : ToCardWriteDescriptor
req = record {
  opcode = Request.write;
  common = record common_default { total_len = 1200; raddr = 300; psn = 16777214 };
  imm = none;
  is_first = true;
  is_last = true;
  sg_list = new_with_sge_list (record { addr = 4096; len = 1200; key = 7 }) none none none;
}

of_request : of_desc request ≡ to_write req
unfolding of_desc
of_request = refl

not_raw : is_raw_packet (to_write req) ≡ false
unfolding is_raw_packet
not_raw = refl

req-Sendable : Sendable req
unfolding new_with_sge_list get_sge_from_option
req-Sendable = record {
  usable = (omega arith, (refl, (refl, (refl, tt))));
  small = omega arith;
  inside = omega arith;
  short = inl refl;
}

some_bytes : 0 < length (bytes_left req.sg_list)
unfolding new_with_sge_list get_sge_from_option
some_bytes = omega arith

-- The lengths and numbers of the packets.
abbrev psn_of : Option Metadata → ℕ
psn_of none = 0
psn_of (some (general m)) = m.common_meta.psn
psn_of (some (acknowledge m)) = m.common_meta.psn

sent_request :
    map {B = ℕ × ℕ}
      (λ w. (length w.bytes, psn_of w.meta))
      (map wire (send agent request []).datagrams)
    ≡ (212, 16777214) ∷ (256, 16777215) ∷ (256, 0) ∷ (256, 1) ∷ (220, 2) ∷ []
unfolding send of_desc is_raw_packet send_write get_total_length new_with_sge_list
    get_sge_from_option get_first_packet_max_length cut cut_below cut_levels emit send_rest
    send_last add dtld_rdma_driver.Device.Opcode.is_first write_first_opcode write_middle_opcode
    write_last_opcode_with_imm wrapping_add Request.last_with_imm
sent_request = refl

few_packets :
    calculate_packet_cnt req.common.pmtu req.common.raddr (length (bytes_left req.sg_list)) ≤ 2 ^ 23
unfolding calculate_packet_cnt get_first_packet_max_length new_with_sge_list get_sge_from_option
few_packets = omega arith

sent_numbers : sent_psns (send agent request []).datagrams ≡ 16777214 ∷ 16777215 ∷ 0 ∷ 1 ∷ 2 ∷ []
unfolding send of_desc is_raw_packet send_write get_total_length new_with_sge_list
    get_sge_from_option get_first_packet_max_length cut cut_below cut_levels emit send_rest
    send_last add dtld_rdma_driver.Device.Opcode.is_first write_first_opcode write_middle_opcode
    write_last_opcode_with_imm wrapping_add Request.last_with_imm common_meta_of
sent_numbers = refl

-- All five packets, one of them twice.
abbrev arrivals : List ℕ
arrivals = 0 ∷ 16777214 ∷ 2 ∷ 0 ∷ 16777215 ∷ 1 ∷ []

arrivals_sent : All (λ p. mem p (sent_psns (send agent request []).datagrams) ≡ true) arrivals
arrivals_sent =
    subst (λ (t : List ℕ). All (λ p. mem p t ≡ true) arrivals) (sym sent_numbers)
      (refl, (refl, (refl, (refl, (refl, (refl, tt))))))

send-is_complete_example :
    let n =
      calculate_packet_cnt req.common.pmtu req.common.raddr (length (bytes_left req.sg_list)) in
    (is_complete (record_all (Window.new 16777214 n) arrivals) ≡ true)
    ↔ All (λ p. mem p arrivals ≡ true) (sent_psns (send agent request []).datagrams)
send-is_complete_example =
    send-is_complete agent (λ sent d. refl) request req of_request not_raw req-Sendable some_bytes
      (omega arith) few_packets arrivals arrivals_sent

send-Asked_example :
    (ds : List Datagram) × (send agent request [] ≡ finished agent ([] ++ ds))
    × Asked request (map wire ds)
send-Asked_example =
    send-Asked agent (λ sent d. refl) request req [] of_request not_raw req-Sendable some_bytes

request-Scheduled : Scheduled 512 request
unfolding get_total_len get_to_card_desc_common
request-Scheduled = record {
  splittable = record {
    writes = refl;
    positive = omega arith;
    large = omega arith;
    small = omega arith;
    one_element = refl;
    room = omega arith;
    room_here = omega arith;
  };
  not_raw_packet = refl;
  one = (refl, refl, refl);
  begins = refl;
  ends = refl;
  multiple = refl;
  larger = omega arith;
}

send_batch-split_descriptor_example :
    (ds : List ToCardWorkRbDesc) × (es : List Datagram) × (whole : List Datagram)
    × (split_descriptor request 512 ≡ some ds)
    × (send_batch agent ds [] ≡ ([] ++ es, []))
    × (send agent request [] ≡ finished agent ([] ++ whole))
    × (map wire es ≡ map wire whole)
send_batch-split_descriptor_example =
    send_batch-split_descriptor agent (λ sent d. refl) 512 request [] request-Scheduled
