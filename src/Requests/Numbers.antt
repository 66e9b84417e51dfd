-- ===== src/Requests/Numbers.antt =====
-- The numbers of the packets and messages of one queue pair.
use dtld_rdma_driver.Base.{
  ℕ, ◌+◌, ◌≡◌, refl, sym, ap, subst, ◌∙◌, inl, inr, Bool, true, false, not, Option, some, none,
  List, [], ◌∷◌, ◌++◌, Bool-cases, Option-cases, ◌==◌, ==_iff, ==_false, u16, if◌then◌else◌, ok,
}
use mathlib.Core.List.{append_assoc, append-nil}
use dtld_rdma_driver.Types.Psn.{wrapping_add}
use dtld_rdma_driver.Utils.{calculate_packet_cnt}
use dtld_rdma_driver.Device.Work.{ToCardWorkRbDesc, ToCardWorkRbDescCommon}
use dtld_rdma_driver.Device.Work
use dtld_rdma_driver.Device.Scheduler.{get_to_card_desc_common, is_read}
use dtld_rdma_driver.Checker.Contexts.{lookup, put}
use dtld_rdma_driver.Checker.Contexts.Lookup.{lookup-put, lookup-put_ne}
use dtld_rdma_driver.Retry.{Key, find}
use dtld_rdma_driver.Software.Request.{read, write}
use dtld_rdma_driver.Requests.{
  build, QpContext, WorkRequest, DeviceInner, common_for, packet_cnt, advanced, is_some, register,
  write_or_read, make_all,
}

-- The descriptors of one queue pair.
abbrev pub sent_on : ℕ → List ToCardWorkRbDesc → List ToCardWorkRbDesc
sent_on q [] = []
sent_on q (d ∷ ds) =
    let rest = sent_on q ds in if (get_to_card_desc_common d).dqpn == q then d ∷ rest else rest

abbrev pub packets : ToCardWorkRbDesc → ℕ
packets d =
    let common = get_to_card_desc_common d in
    if is_read d then 1 else calculate_packet_cnt common.pmtu common.raddr common.total_len

-- Each descriptor has the PSN after the packets of the one before, and the next message number.
abbrev pub Consecutive : ℕ → ℕ → List ToCardWorkRbDesc → Type 0
Consecutive psn msn [] = Unit
Consecutive psn msn (d ∷ ds) =
    ((get_to_card_desc_common d).psn ≡ psn)
    × ((get_to_card_desc_common d).msn ≡ msn)
    × Consecutive (wrapping_add psn (packets d)) (u16 (msn + 1)) ds

sent_on-append :
    (q : ℕ) (ds es : List ToCardWorkRbDesc) → sent_on q (ds ++ es) ≡ sent_on q ds ++ sent_on q es
sent_on-append q [] es = refl
sent_on-append q (d ∷ ds) es = elim (Bool-cases ((get_to_card_desc_common d).dqpn == q)) [
  | inl e ↦ rw e (ap (λ t. d ∷ t) (sent_on-append q ds es))
  | inr e ↦ rw e (sent_on-append q ds es)
]

-- What `build` makes of a request.
pub built :
    (qp : QpContext) (r : WorkRequest)
    → (d : ToCardWorkRbDesc) × (build (record {
      kind = if not r.is_read then write else read;
      common = some (common_for qp r);
      seg_list = r.sge0 ∷ [];
      imm = none;
    })
        ≡ ok d)
      × (get_to_card_desc_common d ≡ common_for qp r)
      × (packets d ≡ packet_cnt qp r)
unfolding build get_to_card_desc_common
built qp r = elim (Bool-cases r.is_read) [
  | inl e ↦
      (Work.read (record { common = common_for qp r; sge = r.sge0 }), rw e refl, refl, rw e refl)
  | inr e ↦ (
    Work.write (record {
      common = common_for qp r;
      is_last = true;
      is_first = true;
      sge0 = r.sge0;
      sge1 = none;
      sge2 = none;
      sge3 = none;
    }),
    rw e refl,
    refl,
    rw e refl,
  )
]

register-sent :
    (now : ℕ) (key : Key) (is_read : Bool) (d : ToCardWorkRbDesc) (s : DeviceInner)
    → ((register now key is_read d s).1.sent ≡ s.sent)
      × ((register now key is_read d s).1.qp_table ≡ s.qp_table)
register-sent now key is_read d s = elim (Bool-cases (is_some (find key s.user_op_ctx_map))) [
  | inl e ↦ rw e (refl, refl)
  | inr e ↦ rw e (refl, refl)
]

-- The entry of every queue pair stands under its number.
abbrev pub IsNamed : List (ℕ × QpContext) → Type 0
IsNamed table = (k : ℕ) (qp : QpContext) → lookup k table ≡ some qp → qp.qpn ≡ k

abbrev number_of : Option QpContext → ℕ
number_of none = 0
number_of (some qp) = qp.qpn

put-IsNamed :
    (table : List (ℕ × QpContext)) (q : ℕ) (qp : QpContext)
    → qp.qpn ≡ q
    → IsNamed table
    → IsNamed (put q qp table)
put-IsNamed table q qp e h k found at_k = elim (Bool-cases (k == q)) [
  | inl same ↦
      let k_is_q = (==_iff k q).0 same in
      let stored =
        sym (lookup-put q qp table)
        ∙ subst (λ (n : ℕ). lookup n (put q qp table) ≡ some found) k_is_q at_k in
      sym (ap number_of stored) ∙ e ∙ sym k_is_q
  | inr other ↦ h k found (sym (lookup-put_ne k q qp table (==_false k q other)) ∙ at_k)
]

abbrev pub Numbered : ℕ → ℕ → ℕ → List ToCardWorkRbDesc → List ToCardWorkRbDesc → Type 0
Numbered q psn msn before after =
    (ds : List ToCardWorkRbDesc) × (sent_on q after ≡ sent_on q before ++ ds)
    × Consecutive psn msn ds

-- One more descriptor of another queue pair, or of this one.
other_sent :
    (q psn msn : ℕ) (d : ToCardWorkRbDesc) (before after : List ToCardWorkRbDesc)
    → ((get_to_card_desc_common d).dqpn == q) ≡ false
    → Numbered q psn msn (before ++ d ∷ []) after
    → Numbered q psn msn before after
other_sent q psn msn d before after other (ds, e, c) = (
  ds,
  e
      ∙ ap (λ t. t ++ ds)
          (sent_on-append q before (d ∷ [])
            ∙ ap (λ t. sent_on q before ++ t) (rw other refl)
            ∙ append-nil (sent_on q before)),
  c,
)

own_sent :
    (q psn msn : ℕ) (d : ToCardWorkRbDesc) (before after : List ToCardWorkRbDesc)
    → ((get_to_card_desc_common d).dqpn == q) ≡ true
    → (get_to_card_desc_common d).psn ≡ psn
    → (get_to_card_desc_common d).msn ≡ msn
    → Numbered q (wrapping_add psn (packets d)) (u16 (msn + 1)) (before ++ d ∷ []) after
    → Numbered q psn msn before after
own_sent q psn msn d before after own a b (ds, e, c) = (
  d ∷ ds,
  e
      ∙ ap (λ t. t ++ ds)
          (sent_on-append q before (d ∷ []) ∙ ap (λ t. sent_on q before ++ t) (rw own refl))
      ∙ append_assoc (sent_on q before) (d ∷ []) ds,
  (a, b, c),
)

module _ (takes : List ToCardWorkRbDesc → ToCardWorkRbDesc → Bool)
    (room : (sent : List ToCardWorkRbDesc) (d : ToCardWorkRbDesc) → takes sent d ≡ true) where
  -- What a request does to what was sent and to the table.
  pub write_or_read_sent :
      (now : ℕ) (r : WorkRequest) (s : DeviceInner) (qp : QpContext)
      → lookup r.dqpn s.qp_table ≡ some qp
      → (d : ToCardWorkRbDesc) × ((write_or_read takes now r s).1.sent ≡ s.sent ++ d ∷ [])
        × ((write_or_read takes now r s).1.qp_table ≡ put r.dqpn (advanced qp r) s.qp_table)
        × (get_to_card_desc_common d ≡ common_for qp r)
        × (packets d ≡ packet_cnt qp r)
  unfolding write_or_read
  write_or_read_sent now r s qp e =
      let (d, b, c, n) = built qp r in
      let s' : DeviceInner = record s {
        qp_table = put r.dqpn (advanced qp r) s.qp_table;
        sent = s.sent ++ d ∷ [];
      } in
      let (f, g) = register-sent now (qp.qpn, qp.next_msn) r.is_read d s' in
      (d, rw (e, b, room, write_or_read) f, rw (e, b, room, write_or_read) g, c, n)

  unknown :
      (now : ℕ) (r : WorkRequest) (s : DeviceInner)
      → lookup r.dqpn s.qp_table ≡ none
      → (write_or_read takes now r s).1 ≡ s
  unfolding write_or_read
  unknown now r s e = rw (e, write_or_read) refl

-- While the card's ring takes every descriptor, requests to any queue pairs in any order leave the
-- descriptors of each queue pair with consecutive message numbers and with PSNs that leave room for
-- exactly the packets of the descriptors before, from the numbers the queue pair had; so the packets of a queue
-- pair have no PSN twice before the numbers wrap around. The entry of each queue pair stands under its own number.
pub make_all-Consecutive :
    (takes : List ToCardWorkRbDesc → ToCardWorkRbDesc → Bool)
    → ((sent : List ToCardWorkRbDesc) (d : ToCardWorkRbDesc) → takes sent d ≡ true)
    → (rs : List (ℕ × WorkRequest)) (s : DeviceInner) (q : ℕ) (qp : QpContext)
    → lookup q s.qp_table ≡ some qp
    → IsNamed s.qp_table
    → (ds : List ToCardWorkRbDesc) × (sent_on q (make_all takes rs s).sent ≡ sent_on q s.sent ++ ds)
      × Consecutive qp.sending_psn qp.next_msn ds
make_all-Consecutive takes room [] s q qp found named =
    ([], sym (append-nil (sent_on q s.sent)), tt)
make_all-Consecutive takes room ((now, r) ∷ rs) s q qp found named =
    elim (Bool-cases (r.dqpn == q)) [
      | inl own ↦
          let r_is_q = (==_iff r.dqpn q).0 own in
          let found_r = subst (λ (n : ℕ). lookup n s.qp_table ≡ some qp) (sym r_is_q) found in
          let (d, sent, table, common, n) = write_or_read_sent takes room now r s qp found_r in
          let s' : DeviceInner = (write_or_read takes now r s).1 in
          let found' =
            ap (lookup q) table
            ∙ subst (λ (k : ℕ). lookup q (put k (advanced qp r) s.qp_table) ≡ some (advanced qp r))
                (sym r_is_q) (lookup-put q (advanced qp r) s.qp_table) in
          let named' =
            subst IsNamed (sym table)
              (put-IsNamed s.qp_table r.dqpn (advanced qp r) (named r.dqpn qp found_r) named) in
          own_sent q qp.sending_psn qp.next_msn d s.sent (make_all takes rs s').sent
            (ap (λ (k : ℕ). k == q) (ap (λ c. c.dqpn) common ∙ named r.dqpn qp found_r) ∙ own)
            (ap (λ c. c.psn) common) (ap (λ c. c.msn) common)
            (subst
              (λ (k : ℕ).
                Numbered q (wrapping_add qp.sending_psn k) (u16 (qp.next_msn + 1))
                  (s.sent ++ d ∷ []) (make_all takes rs s').sent)
              (sym n)
              (subst
                (λ t.
                  Numbered q (advanced qp r).sending_psn (advanced qp r).next_msn t
                    (make_all takes rs s').sent)
                sent (make_all-Consecutive takes room rs s' q (advanced qp r) found' named')))
      | inr other ↦ elim (Option-cases (lookup r.dqpn s.qp_table)) [
        | inl missing ↦
            subst (λ t. Numbered q qp.sending_psn qp.next_msn s.sent (make_all takes rs t).sent)
              (sym (unknown takes room now r s missing))
              (make_all-Consecutive takes room rs s q qp found named)
        | inr (qp', found_r) ↦
            let (d, sent, table, common, n) = write_or_read_sent takes room now r s qp' found_r in
            let s' : DeviceInner = (write_or_read takes now r s).1 in
            let found' =
              ap (lookup q) table
              ∙ lookup-put_ne q r.dqpn (advanced qp' r) s.qp_table
                  (λ e. ==_false r.dqpn q other (sym e))
              ∙ found in
            let named' =
              subst IsNamed (sym table)
                (put-IsNamed s.qp_table r.dqpn (advanced qp' r) (named r.dqpn qp' found_r) named) in
            other_sent q qp.sending_psn qp.next_msn d s.sent (make_all takes rs s').sent
              (ap (λ (k : ℕ). k == q) (ap (λ c. c.dqpn) common ∙ named r.dqpn qp' found_r) ∙ other)
              (subst (λ t. Numbered q qp.sending_psn qp.next_msn t (make_all takes rs s').sent) sent
                (make_all-Consecutive takes room rs s' q qp found' named'))
      ]
    ]
