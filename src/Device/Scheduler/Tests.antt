-- ===== src/Device/Scheduler/Tests.antt =====
-- Requests split at concrete sizes.
use dtld_rdma_driver.Base.{ℕ, ◌%◌, ◌≡◌, refl, true, none, some, List, [], ◌∷◌, map, arith}
use dtld_rdma_driver.Types.{mtu256, pmtu_bytes}
use dtld_rdma_driver.Types.Psn.{wrapping_add}
use dtld_rdma_driver.Utils.{calculate_packet_cnt, get_first_packet_max_length}
use dtld_rdma_driver.Device.Work.{ToCardWorkRbDesc, write, common_default}
use dtld_rdma_driver.Device.Scheduler.{
  split_descriptor, get_to_card_desc_common, get_total_len, sge0_of, split_loop, cut_from_sgl,
  cut_levels, segment, advance, mark_front, mark_back, mark_first, mark_last,
  get_first_schedule_segment_length, recalculate_psn,
}
use dtld_rdma_driver.Device.Scheduler.Psn.{recalculate_psn_lem}
use dtld_rdma_driver.Device.Scheduler.Pieces.{Pieces, Marked}
use dtld_rdma_driver.Device.Scheduler.Split.{Splittable, split_descriptor-Pieces}
use dtld_rdma_driver.Device.Scheduler.Packets.{packets_of, split_descriptor-packets_of}

-- 1200 bytes from address 300 on, in segments of 512 bytes.
abbrev request : ToCardWorkRbDesc
request = write (record {
  common = record common_default { total_len = 1200; raddr = 300; psn = 16777214 };
  is_last = true;
  is_first = true;
  sge0 = record { addr = 4096; len = 1200; key = 7 };
  sge1 = none;
  sge2 = none;
  sge3 = none;
})

request-Splittable : Splittable 512 request
unfolding get_total_len get_to_card_desc_common
request-Splittable = record {
  writes = refl;
  positive = omega arith;
  large = omega arith;
  small = omega arith;
  one_element = refl;
  room = omega arith;
  room_here = omega arith;
}

-- The segments' elements, addresses and sequence numbers.
abbrev cuts : List ToCardWorkRbDesc → List (ℕ × ℕ × ℕ)
cuts =
    map (λ d. ((sge0_of d).len, (get_to_card_desc_common d).raddr, (get_to_card_desc_common d).psn))

split_request :
    elim (split_descriptor request 512) [ none ↦ [] | some ds ↦ cuts ds ]
    ≡ (212, 300, 16777214) ∷ (512, 512, 16777215) ∷ (476, 1024, 1) ∷ []
unfolding split_descriptor get_total_len get_to_card_desc_common split_loop cut_from_sgl cut_levels
    segment advance mark_front mark_back mark_first mark_last get_first_schedule_segment_length
    recalculate_psn wrapping_add get_first_packet_max_length
split_request = refl

recalculate_psn_lem_example :
    recalculate_psn 300 mtu256 212 16777214
    ≡ wrapping_add 16777214 (calculate_packet_cnt mtu256 300 212)
recalculate_psn_lem_example = recalculate_psn_lem 300 mtu256 212 16777214

split_descriptor-Pieces_example :
    let common = get_to_card_desc_common request in
    let sge = sge0_of request in
    (ds : List ToCardWorkRbDesc) × (split_descriptor request 512 ≡ some ds)
    × Pieces 512 common.pmtu sge.key request common.raddr sge.addr common.psn
        (get_total_len request)
        ds
    × Marked (get_total_len request) ds
split_descriptor-Pieces_example = split_descriptor-Pieces 512 request request-Splittable

in_packets : 512 % pmtu_bytes (get_to_card_desc_common request).pmtu ≡ 0
unfolding get_to_card_desc_common
in_packets = refl

split_descriptor-packets_of_example :
    let common = get_to_card_desc_common request in
    (ds : List ToCardWorkRbDesc) × (split_descriptor request 512 ≡ some ds)
    × (packets_of common.pmtu ds
        ≡ calculate_packet_cnt common.pmtu common.raddr (get_total_len request))
split_descriptor-packets_of_example =
    split_descriptor-packets_of 512 request request-Splittable in_packets
