-- ===== src/Software/Logic/Delivery.antt =====
-- From the card in software to the checker of the receiver: the packets of a message and the window
-- that they are recorded in.
use dtld_rdma_driver.Base.{
  ℕ, zero, suc, ◌+◌, ◌%◌, ◌^◌, ◌<◌, ◌≤◌, ◌≡◌, ◌↔◌, ◌⊎◌, refl, sym, ap, ap₂, subst, ◌∙◌, inl, inr,
  Bool, true, false, ◌||◌, Option, some, none, List, [], ◌∷◌, map, length, length-map, All, arith,
  Bool-cases, ◌==◌, ==_iff, ==_false,
}
use dtld_rdma_driver.Types.{Pmtu}
use dtld_rdma_driver.Types.Psn.{IsPsn, wrapping_add, wrapping_sub}
use dtld_rdma_driver.Types.Psn.Order.{wrapping_add_lem, wrapping_sub_lem}
use dtld_rdma_driver.Utils.{calculate_packet_cnt}
use dtld_rdma_driver.Device.Work.{ToCardWorkRbDesc}
use dtld_rdma_driver.Checker.Window.{is_complete}
use dtld_rdma_driver.Checker.Window
use dtld_rdma_driver.Checker.Window.Complete.{all_below-true, true-all_below}
use dtld_rdma_driver.Checker.Window.Record.{record_all, arrived, Within, record_all-is_complete}
use dtld_rdma_driver.Software.Message.{Metadata, common_meta_of}
use dtld_rdma_driver.Software.Payload.Cut.{bytes_left}
use dtld_rdma_driver.Software.Request.{ToCardWriteDescriptor, to_write, of_desc, is_raw_packet}
use dtld_rdma_driver.Software.Logic.{Datagram, send, meta_of}
use dtld_rdma_driver.Software.Logic.Packets.{Wire, wire, Message, Packets, room}
use dtld_rdma_driver.Software.Logic.Wires.{message_of}
use dtld_rdma_driver.Software.Logic.Send.{Sendable, begins_of, send-Packets}

abbrev pub mem : ℕ → List ℕ → Bool
mem p [] = false
mem p (q ∷ qs) = (q == p) || mem p qs

-- The numbers from `psn` on.
abbrev numbers : ℕ → ℕ → List ℕ
numbers psn zero = []
numbers psn (suc n) = psn ∷ numbers (wrapping_add psn 1) n

-- The PSN in the header of a packet; a raw packet has none.
abbrev pub psn_of : Option Metadata → ℕ
psn_of none = 0
psn_of (some meta) = (common_meta_of meta).psn

Packets-numbers :
    (m : Message) (ends : Bool) (begins : Option ℕ) (va psn : ℕ) (bytes : List ℕ) (ws : List Wire)
    → Packets m ends begins va psn bytes ws
    → map (λ w. psn_of w.meta) ws ≡ numbers psn (length ws)
unfolding common_meta_of
Packets-numbers m ends begins va psn bytes [] ps = absurd (cc)
Packets-numbers m ends begins va psn bytes (w ∷ []) (_, e) = ap (λ w. psn_of w.meta ∷ []) e
Packets-numbers m ends begins va psn bytes (w ∷ v ∷ ws) (now, later, _, _, _, e, ps) =
    ap₂ (λ p qs. p ∷ qs) (ap (λ w. psn_of w.meta) e)
      (Packets-numbers m ends none (va + room m va) (wrapping_add psn 1) later (v ∷ ws) ps)

or_cases : (a b : Bool) → (a || b) ≡ true → (a ≡ true) ⊎ (b ≡ true)
or_cases true b e = inl refl
or_cases false b e = inr e

-- The offset of a number among `n` consecutive ones that begin `k` after the start.
numbers-offset :
    (start k n psn p : ℕ)
    → IsPsn start
    → k + n ≤ 2 ^ 24
    → psn ≡ (start + k) % 2 ^ 24
    → mem p (numbers psn n) ≡ true
    → (wrapping_sub p start < k + n) × IsPsn p
numbers-offset start k zero psn p hs small e h = absurd (cc)
numbers-offset start k (suc n) psn p hs small e h = elim (or_cases (psn == p) _ h) [
  | inl same ↦
      let p_is = sym ((==_iff psn p).0 same) ∙ e in
      let is_psn : IsPsn p = omega (arith, p_is) in
      (omega (arith, wrapping_sub_lem p start is_psn, p_is, hs, small), is_psn)
  | inr later ↦
      let (a, b) =
        numbers-offset start (k + 1) n (wrapping_add psn 1) p hs (omega (arith, small))
          (wrapping_add_lem psn 1 ∙ omega (arith, e)) later in
      (omega (arith, a), b)
]

same_test : (a b c d : ℕ) → (a ≡ b → c ≡ d) → (c ≡ d → a ≡ b) → (a == b) ≡ (c == d)
same_test a b c d f g = elim (Bool-cases (a == b)) [
  | inl e ↦ e ∙ sym ((==_iff c d).1 (f ((==_iff a b).0 e)))
  | inr e ↦ elim (Bool-cases (c == d)) [
    | inl e' ↦ absurd (==_false a b e (g ((==_iff c d).0 e')))
    | inr e' ↦ e ∙ sym e'
  ]
]

-- A number has the offset `x` exactly when it is `x` after the start.
offset_test :
    (start x p : ℕ)
    → IsPsn start
    → x < 2 ^ 24
    → IsPsn p
    → (wrapping_sub p start == x) ≡ (p == (start + x) % 2 ^ 24)
offset_test start x p hs hx hp =
    same_test (wrapping_sub p start) x p ((start + x) % 2 ^ 24)
      (λ e. omega (arith, e, wrapping_sub_lem p start hp, hs, hx, hp))
      (λ e. omega (arith, e, wrapping_sub_lem p start hp, hs, hx, hp))

arrived-mem :
    (start x : ℕ) (rs : List ℕ)
    → IsPsn start
    → x < 2 ^ 24
    → All IsPsn rs
    → arrived start x rs ≡ mem ((start + x) % 2 ^ 24) rs
arrived-mem start x [] hs hx hr = refl
arrived-mem start x (r ∷ rs) hs hx (h, hr) =
    ap₂ (λ a b. a || b) (offset_test start x r hs hx h) (arrived-mem start x rs hs hx hr)

numbers-All :
    (start k n psn : ℕ) (rs : List ℕ)
    → psn ≡ (start + k) % 2 ^ 24
    → ((x : ℕ) → k ≤ x → x < k + n → mem ((start + x) % 2 ^ 24) rs ≡ true)
    → All (λ p. mem p rs ≡ true) (numbers psn n)
numbers-All start k zero psn rs e h = tt
numbers-All start k (suc n) psn rs e h = (
  ap (λ (p : ℕ). mem p rs) e ∙ h k (omega arith) (omega arith),
  numbers-All start (k + 1) n (wrapping_add psn 1) rs (wrapping_add_lem psn 1 ∙ omega (arith, e))
      (λ x low high. h x (omega (arith, low)) (omega (arith, high))),
)

All-numbers :
    (start k n psn x : ℕ) (rs : List ℕ)
    → psn ≡ (start + k) % 2 ^ 24
    → All (λ p. mem p rs ≡ true) (numbers psn n)
    → k ≤ x
    → x < k + n
    → mem ((start + x) % 2 ^ 24) rs ≡ true
All-numbers start k zero psn x rs e hs low high = absurd (omega (arith, low, high))
All-numbers start k (suc n) psn x rs e (h, hs) low high = elim (Bool-cases (x == k)) [
  | inl now ↦
      ap (λ (p : ℕ). mem p rs) (ap (λ (t : ℕ). (start + t) % 2 ^ 24) ((==_iff x k).0 now) ∙ sym e)
      ∙ h
  | inr later ↦
      All-numbers start (k + 1) n (wrapping_add psn 1) x rs
        (wrapping_add_lem psn 1 ∙ omega (arith, e)) hs (omega (arith, low, ==_false x k later))
        (omega (arith, high))
]

-- What is received of consecutive numbers lies in the window, and is 24 bits wide.
received-Within :
    (start n : ℕ) (rs : List ℕ)
    → IsPsn start
    → n ≤ 2 ^ 24
    → All (λ p. mem p (numbers start n) ≡ true) rs
    → Within start n rs × All IsPsn rs
received-Within start n [] hs small h = (tt, tt)
received-Within start n (r ∷ rs) hs small (h, hr) =
    let (a, b) = numbers-offset start 0 n start r hs (omega (arith, small)) (omega (arith, hs)) h in
    let (within, narrow) = received-Within start n rs hs small hr in
    ((omega (arith, a), within), (b, narrow))

numbers-is_complete :
    (start n : ℕ) (rs : List ℕ)
    → IsPsn start
    → 0 < n
    → n ≤ 2 ^ 23
    → All (λ p. mem p (numbers start n) ≡ true) rs
    → (is_complete (record_all (Window.new start n) rs) ≡ true)
      ↔ All (λ p. mem p rs ≡ true) (numbers start n)
numbers-is_complete start n rs hs pos small h =
    let (inside, narrow) = received-Within start n rs hs (omega (arith, small)) h in
    let complete = record_all-is_complete start n rs pos small inside in
    (
      λ c. numbers-All start 0 n start rs (omega (arith, hs)) (λ x low high.
          sym (arrived-mem start x rs hs (omega (arith, high, small)) narrow)
          ∙ all_below-true n (λ x. arrived start x rs) x (sym complete ∙ c) (omega (arith, high))),
      λ all_there.
          complete
          ∙ true-all_below n (λ x. arrived start x rs)
              (λ x below.
                arrived-mem start x rs hs (omega (arith, below, small)) narrow
                ∙ All-numbers start 0 n start x rs (omega (arith, hs)) all_there (omega arith)
                    (omega (arith, below))),
    )

some_packets : (p : Pmtu) (raddr len : ℕ) → 0 < calculate_packet_cnt p raddr len
unfolding calculate_packet_cnt
some_packets p raddr len = omega arith

abbrev pub sent_psns : List Datagram → List ℕ
sent_psns ds = map (λ w. psn_of w.meta) (map wire ds)

-- From the sender to the receiver's window: while the network agent takes everything, and of the
-- packets that `send` makes of a write, a write with an immediate value or a read response the
-- receiver sees some, in any order and however often, the window that it records them in, made for as many
-- packets as `calculate_packet_cnt` says, is complete exactly when every packet that was sent is
-- among them. The conditions are those of `send-Asked`; the message has at least one byte and at most 2 ^ 23 packets.
pub send-is_complete :
    {E : Type 0} (agent : List Datagram → Datagram → Option E)
    → ((sent : List Datagram) (d : Datagram) → agent sent d ≡ none)
    → (d : ToCardWorkRbDesc) (req : ToCardWriteDescriptor) → of_desc d ≡ to_write req
    → is_raw_packet (to_write req) ≡ false
    → Sendable req
    → 0 < length (bytes_left req.sg_list)
    → IsPsn req.common.psn
    → calculate_packet_cnt req.common.pmtu req.common.raddr (length (bytes_left req.sg_list))
      ≤ 2 ^ 23
    → (received : List ℕ) → All (λ p. mem p (sent_psns (send agent d []).datagrams) ≡ true) received
    → let n =
        calculate_packet_cnt req.common.pmtu req.common.raddr (length (bytes_left req.sg_list)) in
      (is_complete (record_all (Window.new req.common.psn n) received) ≡ true)
      ↔ All (λ p. mem p received ≡ true) (sent_psns (send agent d []).datagrams)
send-is_complete agent works d req e cooked s pos hs small received h =
    let n =
      calculate_packet_cnt req.common.pmtu req.common.raddr (length (bytes_left req.sg_list)) in
    let (ds, all_sent, ps, count) = send-Packets agent works d req [] e cooked s pos in
    let psns : sent_psns (send agent d []).datagrams ≡ numbers req.common.psn n =
      ap (λ r. sent_psns r.datagrams) all_sent
      ∙ Packets-numbers (message_of req (meta_of req.common)) req.is_last (begins_of req)
          req.common.raddr req.common.psn (bytes_left req.sg_list) (map wire ds) ps
      ∙ ap (numbers req.common.psn) (length-map wire ds ∙ count) in
    subst
      (λ (t : List ℕ).
        (is_complete (record_all (Window.new req.common.psn n) received) ≡ true)
        ↔ All (λ p. mem p received ≡ true) t)
      (sym psns)
      (numbers-is_complete req.common.psn n received hs
        (some_packets req.common.pmtu req.common.raddr (length (bytes_left req.sg_list))) small
        (subst (λ (t : List ℕ). All (λ p. mem p t ≡ true) received) psns h))
