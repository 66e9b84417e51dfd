-- ===== src/Software/Logic/Rest.antt =====
-- The packets after the first: the loop of `send` and what follows it.
use dtld_rdma_driver.Base.{
  ℕ, zero, suc, ◌+◌, ◌-◌, ◌%◌, ◌^◌, ◌<◌, ◌≤◌, ◌≡◌, refl, sym, ap, ap₂, subst, ◌∙◌, inl, inr, true,
  false, Option, some, none, List, [], ◌∷◌, ◌++◌, map, length, length-append, arith, Bool-cases,
  ltb, ltb_iff, add64,
}
use mathlib.Core.List.{append_assoc, append-nil}
use native.Mathlib.Nat.{mod-eq_of_lt, add-mod_right}
use dtld_rdma_driver.Types.{Pmtu, pmtu_bytes}
use dtld_rdma_driver.Types.Psn.{wrapping_add}
use dtld_rdma_driver.Utils.Packets.{pmtu_pos}
use dtld_rdma_driver.Software.Message.{RdmaMessageMetaCommon}
use dtld_rdma_driver.Software.Payload.{PayloadInfo, SgList, cut}
use dtld_rdma_driver.Software.Payload.Bytes.{bytes_of}
use dtld_rdma_driver.Software.Payload.Cut.{Usable, bytes_left, cut_lem}
use dtld_rdma_driver.Software.Request.{
  ToCardWriteDescriptor, is_resp_opcode, write_middle_opcode, write_last_opcode_with_imm,
}
use dtld_rdma_driver.Software.Logic.{
  Datagram, Sent, emit, finished, write_meta, Cursor, send_last, send_rest,
}
use dtld_rdma_driver.Software.Logic.Boundary.{to_boundary}
use dtld_rdma_driver.Software.Logic.Packets.{wire, packet, room, Packets, Packets-cons, Packets-at}
use dtld_rdma_driver.Software.Logic.Wires.{
  message_of, message, last_kind, middle_kind, wire-message,
}

not_ltb : (a b : ℕ) → ltb a b ≡ false → b ≤ a
not_ltb a b e = ground arith

aligned_room : (p : Pmtu) (va : ℕ) → va % pmtu_bytes p ≡ 0 → to_boundary p va ≡ pmtu_bytes p
aligned_room p va e = omega (arith, e)

next_aligned :
    (p : Pmtu) (va : ℕ)
    → va % pmtu_bytes p ≡ 0
    → va + pmtu_bytes p < 2 ^ 64
    → add64 va (pmtu_bytes p) % pmtu_bytes p ≡ 0
next_aligned p va e h =
    ap (λ (t : ℕ). t % pmtu_bytes p) (mod-eq_of_lt h) ∙ add-mod_right va (pmtu_bytes p) ∙ e

all_taken : (xs ys zs : List ℕ) → xs ++ ys ≡ zs → length xs ≡ length zs → xs ≡ zs
all_taken xs [] zs e h = sym (append-nil xs) ∙ e
all_taken xs (y ∷ ys) zs e h = absurd (omega (arith, h, ap length e, length-append xs (y ∷ ys)))

module _ {E : Type 0} (agent : List Datagram → Datagram → Option E)
    (works : (sent : List Datagram) (d : Datagram) → agent sent d ≡ none)
    (req : ToCardWriteDescriptor) (common_meta : RdmaMessageMetaCommon) where
  -- A call sends the packets of some bytes and has no error.
  abbrev pub Sends : Option ℕ → ℕ → ℕ → List ℕ → List Datagram → Sent E → Type 0
  Sends begins va psn bytes sent result =
      (ds : List Datagram) × (result ≡ finished agent (sent ++ ds))
      × Packets (message_of req common_meta) req.is_last begins va psn bytes (map wire ds)

  pub emit-works :
      (d : Datagram) (sent : List Datagram) (next : List Datagram → Sent E)
      → emit agent d sent next ≡ next (sent ++ d ∷ [])
  unfolding emit
  emit-works d sent next = rw (works sent d, emit) refl

  send_last-cut :
      (c : Cursor) (sent : List Datagram) (p : PayloadInfo) (t : SgList)
      → cut c.cur_len c.sg_list ≡ some (p, t)
      → send_last agent req (write_meta req common_meta) c sent
        ≡ finished agent (
            sent
            ++ message common_meta req
                (write_last_opcode_with_imm req).0
                (write_last_opcode_with_imm req).1
                c.cur_va
                c.cur_len
                c.psn
                p
              ∷ [])
  unfolding send_last
  send_last-cut c sent p t e = rw (e, send_last) (emit-works _ sent (finished agent))

  send_last-Sends :
      (c : Cursor) (sent : List Datagram)
      → Usable c.sg_list
      → 0 < c.cur_len
      → c.cur_len ≡ length (bytes_left c.sg_list)
      → c.cur_len ≤ room (message_of req common_meta) c.cur_va
      → Sends none c.cur_va c.psn
          (bytes_left c.sg_list)
          sent
          (send_last agent req (write_meta req common_meta) c sent)
  unfolding send_last emit write_last_opcode_with_imm
  send_last-Sends c sent u pos len fits =
      let (p, t, e, joined, size, _) = cut_lem c.cur_len c.sg_list u pos (omega (arith, len)) in
      let (opcode, imm) = write_last_opcode_with_imm req in
      (
        message common_meta req opcode imm c.cur_va c.cur_len c.psn p ∷ [],
        send_last-cut c sent p t e,
        (
          omega (arith, len, fits),
          wire-message req common_meta opcode imm c.cur_va c.cur_len c.psn p
              ∙ ap₂ (λ k bs. packet (message_of req common_meta) k c.cur_va c.psn bs)
                  (last_kind (is_resp_opcode req.opcode) req.imm req.is_last c.cur_len)
                  (all_taken (bytes_of p) (bytes_left t) _ joined (omega (arith, size, len))),
        ),
      )

  send_rest-end :
      (fuel : ℕ) (c : Cursor) (sent : List Datagram)
      → ltb (pmtu_bytes req.common.pmtu) c.cur_len ≡ false
      → send_rest agent (suc fuel) req (write_meta req common_meta) c sent
        ≡ send_last agent req (write_meta req common_meta) c sent
  unfolding send_rest
  send_rest-end fuel c sent ends = rw (ends, send_rest) refl

  abbrev after : Cursor → SgList → Cursor
  after c t =
      let pmtu = pmtu_bytes req.common.pmtu in
      record {
        sg_list = t;
        cur_len = c.cur_len - pmtu;
        psn = wrapping_add c.psn 1;
        cur_va = add64 c.cur_va pmtu;
      }

  abbrev middle : Cursor → PayloadInfo → Datagram
  middle c p =
      message common_meta req (write_middle_opcode req) none c.cur_va (pmtu_bytes req.common.pmtu)
        c.psn p

  send_rest-cut :
      (fuel : ℕ) (c : Cursor) (sent : List Datagram) (p : PayloadInfo) (t : SgList)
      → ltb (pmtu_bytes req.common.pmtu) c.cur_len ≡ true
      → cut (pmtu_bytes req.common.pmtu) c.sg_list ≡ some (p, t)
      → send_rest agent (suc fuel) req (write_meta req common_meta) c sent
        ≡ send_rest agent fuel req
            (write_meta req common_meta)
            (after c t)
            (sent ++ middle c p ∷ [])
  unfolding send_rest
  send_rest-cut fuel c sent p t more e =
      rw (more, e, send_rest)
        (emit-works _ sent (send_rest agent fuel req (write_meta req common_meta) (after c t)))

  -- The packets of a turn of the loop and of what follows it.
  send_rest-after :
      (fuel : ℕ) (c : Cursor) (sent : List Datagram) (p : PayloadInfo) (t : SgList)
      → c.cur_va % pmtu_bytes req.common.pmtu ≡ 0
      → c.cur_va + c.cur_len < 2 ^ 64
      → pmtu_bytes req.common.pmtu < c.cur_len
      → length (bytes_of p) ≡ pmtu_bytes req.common.pmtu
      → length (bytes_left t) ≡ c.cur_len - pmtu_bytes req.common.pmtu
      → bytes_of p ++ bytes_left t ≡ bytes_left c.sg_list
      → send_rest agent (suc fuel) req (write_meta req common_meta) c sent
        ≡ send_rest agent fuel req
            (write_meta req common_meta)
            (after c t)
            (sent ++ middle c p ∷ [])
      → Sends none (after c t).cur_va (after c t).psn (bytes_left t) (sent ++ middle c p ∷ []) (
          send_rest agent fuel req
            (write_meta req common_meta)
            (after c t)
            (sent ++ middle c p ∷ []))
      → Sends none c.cur_va c.psn
          (bytes_left c.sg_list)
          sent
          (send_rest agent (suc fuel) req (write_meta req common_meta) c sent)
  unfolding write_middle_opcode
  send_rest-after fuel c sent p t aligned inside more size left joined e (ds, e', ps) =
      let full = aligned_room req.common.pmtu c.cur_va aligned in
      (
        middle c p ∷ ds,
        e ∙ e' ∙ ap (finished agent) (append_assoc sent (middle c p ∷ []) ds),
        subst
            (λ bs.
              Packets (message_of req common_meta) req.is_last none c.cur_va c.psn bs
                (wire (middle c p) ∷ map wire ds))
            joined
            (Packets-cons (message_of req common_meta) req.is_last none c.cur_va c.psn (bytes_of p)
              (bytes_left t) (wire (middle c p)) (map wire ds) (size ∙ sym full)
              (omega (arith, left, more))
              (wire-message req common_meta (write_middle_opcode req) none c.cur_va
                  (pmtu_bytes req.common.pmtu) c.psn p
                ∙ ap (λ k. packet (message_of req common_meta) k c.cur_va c.psn (bytes_of p))
                    (middle_kind (is_resp_opcode req.opcode) req.imm (pmtu_bytes req.common.pmtu)))
              (Packets-at (message_of req common_meta) req.is_last none _ _ _ _ (bytes_left t)
                (map wire ds) (omega (arith, full, inside, more)) refl ps)),
      )

  pub send_rest-Sends :
      (fuel : ℕ) (c : Cursor) (sent : List Datagram)
      → Usable c.sg_list
      → 0 < c.cur_len
      → c.cur_len ≤ fuel
      → c.cur_len ≡ length (bytes_left c.sg_list)
      → c.cur_va % pmtu_bytes req.common.pmtu ≡ 0
      → c.cur_va + c.cur_len < 2 ^ 64
      → Sends none c.cur_va c.psn
          (bytes_left c.sg_list)
          sent
          (send_rest agent fuel req (write_meta req common_meta) c sent)
  send_rest-Sends zero c sent u pos enough len aligned inside = absurd (omega (arith, pos, enough))
  send_rest-Sends (suc fuel) c sent u pos enough len aligned inside =
      let pmtu = pmtu_bytes req.common.pmtu in
      let some_pmtu : 0 < pmtu_bytes req.common.pmtu =
        omega (arith, (pmtu_pos req.common.pmtu).0) in
      elim (Bool-cases (ltb pmtu c.cur_len)) [
        | inl goes_on ↦
            let more = (ltb_iff pmtu c.cur_len).0 goes_on in
            let (p, t, e, joined, size, u') =
              cut_lem pmtu c.sg_list u some_pmtu (omega (arith, more, len)) in
            let left : length (bytes_left t) ≡ c.cur_len - pmtu_bytes req.common.pmtu =
              omega
                (arith, ap length joined, length-append (bytes_of p) (bytes_left t), size, len) in
            send_rest-after fuel c sent p t aligned inside more size left joined
              (send_rest-cut fuel c sent p t goes_on e)
              (send_rest-Sends fuel (after c t) (sent ++ middle c p ∷ []) u' (omega (arith, more))
                (omega (arith, enough, some_pmtu)) (sym left)
                (next_aligned req.common.pmtu c.cur_va aligned (omega (arith, inside, more)))
                (omega (arith, inside, more)))
        | inr ends ↦
            let (ds, e, ps) = send_last-Sends c sent u pos len (
              omega (
                arith,
                aligned_room req.common.pmtu c.cur_va aligned,
                not_ltb pmtu c.cur_len ends,
              )) in
            (ds, send_rest-end fuel c sent ends ∙ e, ps)
      ]
