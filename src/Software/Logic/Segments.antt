-- ===== src/Software/Logic/Segments.antt =====
-- What the card in software sends of the segments of a request.
use dtld_rdma_driver.Base.{
  ℕ, ◌+◌, ◌-◌, ◌%◌, ◌^◌, ◌<◌, ◌≡◌, ◌⊎◌, refl, sym, ap, subst, ◌∙◌, inl, inr, Bool, true, false,
  ◌||◌, Option, some, none, List, [], ◌∷◌, ◌++◌, map, arith,
}
use dtld_rdma_driver.Types.{pmtu_bytes}
use dtld_rdma_driver.Types.Psn.{wrapping_add}
use dtld_rdma_driver.Utils.{calculate_packet_cnt}
use dtld_rdma_driver.Device.Work.{ToCardWorkRbDesc, read, write, read_resp, write_with_imm}
use dtld_rdma_driver.Device.Scheduler.{get_to_card_desc_common, get_total_len, sge0_of}
use dtld_rdma_driver.Device.Scheduler.Pieces.{
  Pieces, Rest, Marked, is_first_of, is_last_of, request_of,
}
use dtld_rdma_driver.Device.Scheduler.Packets.{boundary}
use dtld_rdma_driver.Software.Payload.Bytes.{range}
use dtld_rdma_driver.Software.Logic.{Datagram, finished, send}
use dtld_rdma_driver.Software.Logic.Packets.{wire, Packets, Packets-like}
use dtld_rdma_driver.Software.Logic.Shape.{message_at, Single, begins_at, single-Packets}
use dtld_rdma_driver.Software.Logic.Segment.{
  Batch, send_batch-last, join, segment-message_at, segment-Single, full_block,
}

or_true : (a : Bool) {b : Bool} → b ≡ true → (a || b) ≡ true
or_true true e = refl
or_true false e = e

true_or : (b : Bool) {a : Bool} → a ≡ true → (a || b) ≡ true
true_or b e = rw e refl

not_begun : (d : ToCardWorkRbDesc) → is_first_of d ≡ false → begins_at d ≡ none
not_begun d e = rw e refl

pub get_total_len_lem :
    (d : ToCardWorkRbDesc) → get_total_len d ≡ (get_to_card_desc_common d).total_len
unfolding get_total_len get_to_card_desc_common
get_total_len_lem (read _) = refl
get_total_len_lem (write _) = refl
get_total_len_lem (read_resp _) = refl
get_total_len_lem (write_with_imm _) = refl

pub begun :
    (d : ToCardWorkRbDesc) (total : ℕ)
    → is_first_of d ≡ true
    → get_total_len d ≡ total
    → begins_at d ≡ some total
begun d total e len = rw e (ap some (sym (get_total_len_lem d) ∙ len))

module _ {E : Type 0} (agent : List Datagram → Datagram → Option E)
    (works : (sent : List Datagram) (datagram : Datagram) → agent sent datagram ≡ none) (size : ℕ)
    (desc : ToCardWorkRbDesc) (key : ℕ) (single : Single desc) where
  -- The packets of one segment.
  segment-Packets :
      (d : ToCardWorkRbDesc) (begins : Option ℕ) (va la psn : ℕ) (sent : List Datagram)
      → let l = (sge0_of d).len in
        sge0_of d ≡ record { addr = la; len = l; key = key }
        → (get_to_card_desc_common d).raddr ≡ va
        → (get_to_card_desc_common d).psn ≡ psn
        → request_of d ≡ request_of desc
        → begins_at d ≡ begins
        → 0 < (sge0_of d).len
        → (sge0_of d).len < 2 ^ 32
        → la + (sge0_of d).len < 2 ^ 64
        → va + (sge0_of d).len < 2 ^ 64
        → ((is_first_of d || is_last_of d) ≡ true)
          ⊎ (pmtu_bytes (message_at desc).pmtu < (sge0_of d).len)
        → (es : List Datagram) × (send agent d sent ≡ finished agent (sent ++ es))
          × Packets
              (message_at desc)
              (is_last_of d)
              begins
              va
              psn
              (range la (sge0_of d).len)
              (map wire es)
  segment-Packets d begins va la psn sent e a p q b some_l small inside inside_there short =
      let (es, f, ps) =
        single-Packets d agent works
          (segment-Single size d desc key va la (sge0_of d).len single e a q some_l small inside
            inside_there short)
          sent in
      (
        es,
        f,
        Packets-like _ _ _ _ _ _ _ _ _ _ _ _ (map wire es) (segment-message_at size d desc key q)
            refl b a p (ap (λ g. range g.addr (sge0_of d).len) e) ps,
      )

  abbrev Parts : ℕ → ℕ → ℕ → ℕ → List ToCardWorkRbDesc → Type 0
  Parts va la psn n ds = Pieces size (message_at desc).pmtu key desc va la psn n ds

  last-Batch :
      (d : ToCardWorkRbDesc) (begins : Option ℕ) (va la psn n : ℕ) (sent : List Datagram)
      → Parts va la psn n (d ∷ [])
      → is_last_of d ≡ true
      → begins_at d ≡ begins
      → n < 2 ^ 32
      → la + n < 2 ^ 64
      → va + n < 2 ^ 64
      → Batch agent works desc begins va psn (range la n) sent (d ∷ [])
  last-Batch d begins va la psn n sent (h0, h1, h2, h3, h4, h5, h6, h7, end) last b small inside
        inside_there =
      let (es, f, ps) =
        segment-Packets d begins va la psn sent h4 h5 h6 h7 b h0 (omega (arith, h1, small))
          (omega (arith, h1, inside)) (omega (arith, h1, inside_there))
          (inl (or_true (is_first_of d) last)) in
      (
        es,
        send_batch-last agent works desc d sent es f,
        Packets-like (message_at desc) (message_at desc) _ _ _ _ _ _ _ _ _ _ (map wire es) refl last
            refl refl refl (ap (range la) (omega (arith, end, h1))) ps,
      )

  front-Batch :
      (d d' : ToCardWorkRbDesc) (ds : List ToCardWorkRbDesc) (begins : Option ℕ) (va la psn n : ℕ)
      (sent : List Datagram)
      → size % pmtu_bytes (message_at desc).pmtu ≡ 0
      → Parts va la psn n (d ∷ d' ∷ ds)
      → is_last_of d ≡ false
      → begins_at d ≡ begins
      → ((is_first_of d || is_last_of d) ≡ true)
        ⊎ (pmtu_bytes (message_at desc).pmtu < (sge0_of d).len)
      → n < 2 ^ 32
      → la + n < 2 ^ 64
      → va + n < 2 ^ 64
      → ((va + (sge0_of d).len) % size ≡ 0
          → (sent' : List Datagram)
          → Batch agent works desc none
              (va + (sge0_of d).len)
              (wrapping_add psn (calculate_packet_cnt (message_at desc).pmtu va (sge0_of d).len))
              (range (la + (sge0_of d).len) (n - (sge0_of d).len))
              sent'
              (d' ∷ ds))
      → Batch agent works desc begins va psn (range la n) sent (d ∷ d' ∷ ds)
  front-Batch d d' ds begins va la psn n sent multiple (h0, h1, h2, h3, h4, h5, h6, h7, ps) last b
        short small inside inside_there rest =
      let (g0, g1, _, _, _, _, _, _, _) = ps in
      let less : (sge0_of d).len < n = omega (arith, h1, g0, g1) in
      let ends : (va + (sge0_of d).len) % size ≡ 0 = elim h3 [
        | inl e ↦ e
        | inr e ↦ absurd (omega (arith, e, less))
      ] in
      let (es, f, qs) =
        segment-Packets d begins va la psn sent h4 h5 h6 h7 b h0 (omega (arith, h1, small))
          (omega (arith, h1, inside)) (omega (arith, h1, inside_there)) short in
      join agent works desc begins d (d' ∷ ds) va la psn (sge0_of d).len n sent es f
        (subst
          (λ (t : Bool).
            Packets (message_at desc) t begins va psn (range la (sge0_of d).len) (map wire es))
          last qs)
        (rest ends (sent ++ es)) h0 less (boundary (va + (sge0_of d).len) size _ multiple ends)

  Rest-Packets :
      (ds : List ToCardWorkRbDesc) (va la psn n : ℕ) (sent : List Datagram)
      → size % pmtu_bytes (message_at desc).pmtu ≡ 0
      → pmtu_bytes (message_at desc).pmtu < size
      → Pieces size (message_at desc).pmtu key desc va la psn n ds
      → Rest ds
      → 0 < n
      → n < 2 ^ 32
      → la + n < 2 ^ 64
      → va + n < 2 ^ 64
      → va % size ≡ 0
      → Batch agent works desc none va psn (range la n) sent ds
  Rest-Packets [] va la psn n sent multiple larger ps rest pos small inside inside_there aligned =
      absurd (omega (arith, ps, pos))
  Rest-Packets (d ∷ []) va la psn n sent multiple larger ps (first, last, _, _) pos small inside
        inside_there aligned =
      last-Batch d none va la psn n sent ps last (not_begun d first) small inside inside_there
  Rest-Packets (d ∷ d' ∷ ds) va la psn n sent multiple larger ps (first, last, _, rest) pos small
        inside inside_there aligned =
      let (h0, h1, h2, h3, h4, h5, h6, h7, ps') = ps in
      let (g0, g1, _, _, _, _, _, _, _) = ps' in
      let ends : (va + (sge0_of d).len) % size ≡ 0 = elim h3 [
        | inl e ↦ e
        | inr e ↦ absurd (omega (arith, e, h1, g0, g1))
      ] in
      let full = full_block va (sge0_of d).len size h0 h2 aligned ends in
      front-Batch d d' ds none va la psn n sent multiple ps last (not_begun d first)
        (inr (omega (arith, full, larger))) small inside inside_there
        (λ e sent'.
          Rest-Packets (d' ∷ ds) _ _ _ _ sent' multiple larger ps' rest (omega (arith, g0, g1))
            (omega (arith, small)) (omega (arith, inside, h1)) (omega (arith, inside_there, h1)) e)

  -- The packets of all segments are those of the message.
  pub segments-Packets :
      (total : ℕ) (ds : List ToCardWorkRbDesc) (va la psn n : ℕ) (sent : List Datagram)
      → size % pmtu_bytes (message_at desc).pmtu ≡ 0
      → pmtu_bytes (message_at desc).pmtu < size
      → Parts va la psn n ds
      → Marked total ds
      → n < 2 ^ 32
      → la + n < 2 ^ 64
      → va + n < 2 ^ 64
      → Batch agent works desc (some total) va psn (range la n) sent ds
  segments-Packets total [] va la psn n sent multiple larger ps marked small inside inside_there =
      absurd (cc)
  segments-Packets total (d ∷ []) va la psn n sent multiple larger ps (first, last, len, _) small
        inside inside_there =
      last-Batch d (some total) va la psn n sent ps last (begun d total first len) small inside
        inside_there
  segments-Packets total (d ∷ d' ∷ ds) va la psn n sent multiple larger ps (first, last, len, rest)
        small inside inside_there =
      let (h0, h1, h2, h3, h4, h5, h6, h7, ps') = ps in
      let (g0, g1, _, _, _, _, _, _, _) = ps' in
      front-Batch d d' ds (some total) va la psn n sent multiple ps last (begun d total first len)
        (inl (true_or (is_last_of d) first)) small inside inside_there
        (λ e sent'.
          Rest-Packets (d' ∷ ds) _ _ _ _ sent' multiple larger ps' rest (omega (arith, g0, g1))
            (omega (arith, small)) (omega (arith, inside, h1)) (omega (arith, inside_there, h1)) e)
