-- ===== src/Device/Scheduler/Packets.antt =====
-- The packets of the segments of a request.
use dtld_rdma_driver.Base.{
  ℕ, ◌+◌, ◌-◌, ◌%◌, ◌<◌, ◌≤◌, ◌≡◌, sym, ap, ◌∙◌, inl, inr, List, [], ◌∷◌, some, arith,
}
use native.Mathlib.Nat.{mod-mod_of_dvd, dvd_of_mod-eq-zero, zero-mod}
use dtld_rdma_driver.Types.{Pmtu, pmtu_bytes}
use dtld_rdma_driver.Utils.{calculate_packet_cnt}
use dtld_rdma_driver.Utils.Packets.{calculate_packet_cnt-cut}
use dtld_rdma_driver.Device.Work.{ToCardWorkRbDesc}
use dtld_rdma_driver.Device.Scheduler.{
  get_to_card_desc_common, get_total_len, sge0_of, split_descriptor,
}
use dtld_rdma_driver.Device.Scheduler.Pieces.{Pieces}
use dtld_rdma_driver.Device.Scheduler.Split.{Splittable, split_descriptor-Pieces}

-- The packets that a list of segments is sent in.
abbrev pub packets_of : Pmtu → List ToCardWorkRbDesc → ℕ
packets_of p [] = 0
packets_of p (d ∷ ds) =
    calculate_packet_cnt p (get_to_card_desc_common d).raddr (sge0_of d).len + packets_of p ds

whole : (l n : ℕ) → l ≤ n → n - l ≡ 0 → l ≡ n
whole l n h e = omega (arith, h, e)

rejoined : (l n : ℕ) → l ≤ n → l + (n - l) ≡ n
rejoined l n h = omega (arith, h)

-- A multiple of the scheduler's size is one of the packet size.
pub boundary : (a size m : ℕ) → size % m ≡ 0 → a % size ≡ 0 → a % m ≡ 0
boundary a size m h e =
    sym (mod-mod_of_dvd m a (dvd_of_mod-eq-zero m h)) ∙ ap (λ (t : ℕ). t % m) e ∙ zero-mod m

module _ (size : ℕ) (p : Pmtu) (key : ℕ) (desc : ToCardWorkRbDesc) where
  packets_of-Pieces :
      (ds : List ToCardWorkRbDesc) (va la psn n : ℕ)
      → size % pmtu_bytes p ≡ 0
      → 0 < n
      → Pieces size p key desc va la psn n ds
      → packets_of p ds ≡ calculate_packet_cnt p va n
  packets_of-Pieces [] va la psn n h pos ps = absurd (omega (arith, ps))
  packets_of-Pieces (d ∷ []) va la psn n h pos (h0, h1, h2, h3, h4, h5, h6, h7, ps) =
      rw h5 (omega (arith, ap (calculate_packet_cnt p va) (whole (sge0_of d).len n h1 ps)))
  packets_of-Pieces (d ∷ e ∷ ds) va la psn n h pos (h0, h1, h2, inr last, h4, h5, h6, h7, ps) =
      let (a, b, _, _, _, _, _, _, _) = ps in absurd (omega (arith, last, a, b))
  packets_of-Pieces (d ∷ e ∷ ds) va la psn n h pos (h0, h1, h2, inl ends, h4, h5, h6, h7, ps) =
      let (a, b, _, _, _, _, _, _, _) = ps in
      let l = (sge0_of d).len in
      rw h5 (
        omega (
          arith,
          packets_of-Pieces (e ∷ ds) _ _ _ _ h (omega (arith, a, b)) ps,
          calculate_packet_cnt-cut p va l (n - l) h0 (omega (arith, a, b))
              (boundary (va + l) size _ h ends),
          ap (calculate_packet_cnt p va) (rejoined l n h1),
        ))

-- For a scheduler size that is positive and a multiple of the packet size, splitting a request does
-- not change the number of packets it is sent in. The request is a write, a write with an immediate
-- value or a read response of one element, has at least `size` and less than 2 ^ 32 bytes, and does
-- not reach the end of the address space, here and at the peer.
pub split_descriptor-packets_of :
    (size : ℕ) (desc : ToCardWorkRbDesc)
    → Splittable size desc
    → size % pmtu_bytes (get_to_card_desc_common desc).pmtu ≡ 0
    → let common = get_to_card_desc_common desc in
      (ds : List ToCardWorkRbDesc) × (split_descriptor desc size ≡ some ds)
      × (packets_of common.pmtu ds
          ≡ calculate_packet_cnt common.pmtu common.raddr (get_total_len desc))
split_descriptor-packets_of size desc s h =
    let (ds, e, pieces, _) = split_descriptor-Pieces size desc s in
    (
      ds,
      e,
      packets_of-Pieces size _ _ desc ds _ _ _ _ h (omega (arith, s.positive, s.large)) pieces,
    )
