-- ===== src/Requests.antt =====
-- The requests of the user: write_or_read, write and read of rust_driver/src/lib.rs, the builder of
-- descriptors of device/types.rs, and the numbers that a queue pair gives out (qp.rs). Whether the
-- card's ring takes a descriptor is a parameter.
pub mod Numbers
pub mod Reuse
mod Tests
use dtld_rdma_driver.Base.{
  ℕ, zero, suc, ◌+◌, ◌%◌, ◌^◌, Bool, true, false, not, Option, some, none, List, [], ◌∷◌, ◌++◌, u16,
  Result, ok, err, if◌then◌else◌,
}
use dtld_rdma_driver.Types.{Pmtu, QpType}
use dtld_rdma_driver.Types.Psn.{wrapping_add}
use dtld_rdma_driver.Utils.{calculate_packet_cnt}
use dtld_rdma_driver.Device.Work.{DescSge, ToCardWorkRbDesc, ToCardWorkRbDescCommon}
use dtld_rdma_driver.Device.Work
use dtld_rdma_driver.Software.Request.{
  ToCardWorkRbDescOpcode, write, write_with_imm, read, read_resp,
}
use dtld_rdma_driver.Checker.Contexts.{lookup, put}
use dtld_rdma_driver.Retry.{Key, same_key, find, RetryMap, add}
use dtld_rdma_driver.OpCtx.{OpCtx, new_running}

pub data RequestError : Type 0 where
  invalid_qpn build_desc_failed device_busy create_op_ctx_failed : RequestError

pub record ToCardWorkRbDescBuilder : Type 0 where
  pub kind : ToCardWorkRbDescOpcode
  pub common : Option ToCardWorkRbDescCommon
  pub seg_list : List DescSge
  pub imm : Option ℕ

-- `Vec::pop`, from the end
abbrev pub pop {ℓ} : {A : Type ℓ} → List A → Option A × List A
pop [] = (none, [])
pop (x ∷ []) = (some x, [])
pop (x ∷ y ∷ xs) = let (last, rest) = pop (y ∷ xs) in (last, x ∷ rest)

abbrev build_write : ToCardWorkRbDescCommon → DescSge → List DescSge → Work.ToCardWorkRbDescWrite
build_write common sge0 rest =
    let (sge1, rest1) = pop rest in
    let (sge2, rest2) = pop rest1 in
    let (sge3, _) = pop rest2 in
    record {
      common = common;
      is_last = true;
      is_first = true;
      sge0 = sge0;
      sge1 = sge1;
      sge2 = sge2;
      sge3 = sge3;
    }

abbrev with_imm_of : Work.ToCardWorkRbDescWrite → Option ℕ → Result ToCardWorkRbDesc RequestError
with_imm_of w none = err build_desc_failed
with_imm_of w (some imm) = ok (
    Work.write_with_imm (record {
      common = w.common;
      is_last = true;
      is_first = true;
      imm = imm;
      sge0 = w.sge0;
      sge1 = w.sge1;
      sge2 = w.sge2;
      sge3 = w.sge3;
    }))

abbrev build_kind :
    ToCardWorkRbDescOpcode
    → ToCardWorkRbDescCommon
    → Option ℕ
    → Option DescSge
    → List DescSge
    → Result ToCardWorkRbDesc RequestError
build_kind kind common imm none rest = err build_desc_failed
build_kind write common imm (some sge0) rest = ok (Work.write (build_write common sge0 rest))
build_kind write_with_imm common imm (some sge0) rest =
    with_imm_of (build_write common sge0 rest) imm
build_kind read common imm (some sge0) rest =
    ok (Work.read (record { common = common; sge = sge0 }))
build_kind read_resp common imm (some sge0) rest =
    ok (Work.read_resp (build_write common sge0 rest))

-- `ToCardWorkRbDescBuilder::build`
unfoldable pub build : ToCardWorkRbDescBuilder → Result ToCardWorkRbDesc RequestError
build b = elim b.common [
  | none ↦ err build_desc_failed
  | some common ↦ let (sge0, rest) = pop b.seg_list in build_kind b.kind common b.imm sge0 rest
]

-- The fields of `QpContext` that a request needs.
pub record QpContext : Type 0 where
  pub qpn : ℕ
  pub qp_type : QpType
  pub pmtu : Pmtu
  pub dqp_ip : ℕ
  pub dqp_mac_addr : ℕ
  pub sending_psn : ℕ
  pub next_msn : ℕ

-- A new entry takes the place of an old one under the same key.
unfoldable pub put_key {ℓ} : {A : Type ℓ} → Key → A → List (Key × A) → List (Key × A)
put_key key v [] = (key, v) ∷ []
put_key key v ((k, a) ∷ rest) =
    let later = put_key key v rest in if same_key k key then (key, v) ∷ rest else (k, a) ∷ later

pub record WorkRequest : Type 0 where
  pub dqpn : ℕ
  pub raddr : ℕ
  pub rkey : ℕ
  pub flags : ℕ
  pub sge0 : DescSge
  pub is_read : Bool

-- A context without a result of its own; no handler is ever set in it.
abbrev pub UserOpCtx : Type 0
UserOpCtx = OpCtx (Unit {0}) (Unit {0})

-- The fields of `DeviceInner` that a request uses, and what the card's ring has taken.
pub record DeviceInner : Type 0 where
  pub qp_table : List (ℕ × QpContext)
  pub user_op_ctx_map : List (Key × UserOpCtx)
  pub retry_map : RetryMap
  pub sent : List ToCardWorkRbDesc

abbrev pub common_for : QpContext → WorkRequest → ToCardWorkRbDescCommon
common_for qp r = record {
  total_len = r.sge0.len;
  raddr = r.raddr;
  rkey = r.rkey;
  dqp_ip = qp.dqp_ip;
  dqpn = qp.qpn;
  mac_addr = qp.dqp_mac_addr;
  pmtu = qp.pmtu;
  flags = r.flags;
  qp_type = qp.qp_type;
  psn = qp.sending_psn;
  msn = qp.next_msn;
}

abbrev pub packet_cnt : QpContext → WorkRequest → ℕ
packet_cnt qp r = if not r.is_read then calculate_packet_cnt qp.pmtu r.raddr r.sge0.len else 1

-- `next_msn` and the PSNs that are set aside for the request.
abbrev pub advanced : QpContext → WorkRequest → QpContext
advanced qp r = record qp {
  sending_psn = wrapping_add qp.sending_psn (packet_cnt qp r);
  next_msn = u16 (qp.next_msn + 1);
}

abbrev pub is_some {ℓ} : {A : Type ℓ} → Option A → Bool
is_some none = false
is_some (some _) = true

-- After the descriptor is on its way: the context of the operation, and the retries. Where there
-- is a context under the key, it is replaced, and the call fails.
abbrev pub register :
    ℕ → Key → Bool → ToCardWorkRbDesc → DeviceInner → Result UserOpCtx RequestError × DeviceInner
register now key is_read desc s =
    let s' = record s { user_op_ctx_map = put_key key new_running s.user_op_ctx_map } in
    if is_some (find key s.user_op_ctx_map)
    then (err create_op_ctx_failed, s')
    else (ok new_running, record s' { retry_map = (add now key desc (not is_read) s.retry_map).1 })

module _ (takes : List ToCardWorkRbDesc → ToCardWorkRbDesc → Bool) where
  abbrev pub send_built :
      ℕ
      → Key
      → Bool
      → Result ToCardWorkRbDesc RequestError
      → DeviceInner
      → Result UserOpCtx RequestError × DeviceInner
  send_built now key is_read (err e) s = (err e, s)
  send_built now key is_read (ok desc) s =
      if takes s.sent desc
      then register now key is_read desc (record s { sent = s.sent ++ desc ∷ [] })
      else (err device_busy, s)

  -- `Device::write_or_read`; `write` and `read` set the flag.
  unfoldable pub write_or_read :
      ℕ → WorkRequest → DeviceInner → Result UserOpCtx RequestError × DeviceInner
  write_or_read now r s = elim (lookup r.dqpn s.qp_table) [
    | none ↦ (err invalid_qpn, s)
    | some qp ↦
        let builder : ToCardWorkRbDescBuilder = record {
          kind = if not r.is_read then write else read;
          common = some (common_for qp r);
          seg_list = r.sge0 ∷ [];
          imm = none;
        } in
        send_built now (qp.qpn, qp.next_msn) r.is_read (build builder)
          (record s { qp_table = put r.dqpn (advanced qp r) s.qp_table })
  ]

  -- Requests one after another, each with the time at which it is made.
  abbrev pub make_all : List (ℕ × WorkRequest) → DeviceInner → DeviceInner
  make_all [] s = s
  make_all ((now, r) ∷ rs) s = make_all rs (write_or_read now r s).1
