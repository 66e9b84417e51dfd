-- ===== src/Retry.antt =====
-- rust_driver/src/retry.rs: the requests that are kept until they are acknowledged. The map is an
-- association list, the clock an argument in milliseconds (128-bit numbers, which do not wrap here),
-- and what a check asks of the sender and of the operation contexts a list of effects.
pub mod Offset
pub mod Timeout
mod Tests
use dtld_rdma_driver.Base.{
  ℕ, zero, suc, ◌+◌, ◌-◌, ◌*◌, Bool, true, false, ◌&&◌, ◌||◌, Option, some, none, List, [], ◌∷◌,
  ◌++◌, u32, add64, sub64, mul64, sub32, Result, ok, err, ltb, leb, ◌==◌, if◌then◌else◌,
}
use dtld_rdma_driver.Types.{Pmtu, pmtu_bytes}
use dtld_rdma_driver.Types.Psn.{wrapping_add}
use dtld_rdma_driver.Utils.{get_first_packet_max_length, calculate_packet_cnt}
use dtld_rdma_driver.Device.Work.{
  ToCardWorkRbDesc, ToCardWorkRbDescWrite, write, read, write_with_imm, read_resp,
}

abbrev pub Key : Type 0
Key = ℕ × ℕ

abbrev pub same_key : Key → Key → Bool
same_key a b = a.0 == b.0 && a.1 == b.1

pub record RetryContext : Type 0 where
  pub descriptor : ToCardWorkRbDesc
  pub retry_counter : ℕ
  pub next_timeout : ℕ
  pub is_initiative : Bool

pub record RetryMap : Type 0 where
  pub max_retry : ℕ
  pub retry_timeout : ℕ
  pub entries : List (Key × RetryContext)

unfoldable pub find {ℓ} : {A : Type ℓ} → Key → List (Key × A) → Option A
find key [] = none
find key ((k, ctx) ∷ rest) = let later = find key rest in if same_key k key then some ctx else later

unfoldable pub without : Key → List (Key × RetryContext) → List (Key × RetryContext)
without key [] = []
without key ((k, ctx) ∷ rest) =
    let later = without key rest in if same_key k key then later else (k, ctx) ∷ later

-- `RetryMap::add`: a key that is there already is left as it is, and `true` returned.
unfoldable pub add : ℕ → Key → ToCardWorkRbDesc → Bool → RetryMap → Bool × RetryMap
add now key descriptor is_initiative m = elim (find key m.entries) [
  | some _ ↦ (true, m)
  | none ↦ (
    false,
    record m {
      entries =
          m.entries
          ++ (
            key,
            record {
              descriptor = descriptor;
              retry_counter = m.max_retry;
              next_timeout = now + m.retry_timeout;
              is_initiative = is_initiative;
            },
          )
            ∷ [];
    },
  )
]

unfoldable pub cancel : Key → RetryMap → Bool × RetryMap
cancel key m = (
  elim (find key m.entries) [ none ↦ true | some _ ↦ false ],
  record m { entries = without key m.entries },
)

-- `psn_addr_offset`
unfoldable pub psn_addr_offset : ℕ → Pmtu → ℕ → ℕ
psn_addr_offset base_addr pmtu psn =
    if psn == 0
    then 0
    else let first_pkt_length = get_first_packet_max_length base_addr (pmtu_bytes pmtu) in
      let second_pkt_addr = add64 base_addr first_pkt_length in
      let next_addr = add64 (mul64 (sub64 psn 1) (pmtu_bytes pmtu)) second_pkt_addr in
      sub64 next_addr base_addr

pub data Invalid : Type 0 where
  psn_range descriptor_type : Invalid

-- The descriptor cut to the packets of a range.
unfoldable pub cut_to_range : ℕ → ℕ → ℕ → ToCardWorkRbDescWrite → ToCardWorkRbDescWrite
cut_to_range from to max_pkt d =
    let start_offset = psn_addr_offset d.sge0.addr d.common.pmtu from in
    let end_offset = psn_addr_offset d.sge0.addr d.common.pmtu to in
    let new_length = sub64 end_offset start_offset in
    record d {
      is_first = from == 0;
      is_last = sub32 max_pkt 1 == to;
      sge0 = record d.sge0 { addr = add64 d.sge0.addr start_offset; len = u32 new_length };
      common = record d.common {
        psn = wrapping_add d.common.psn from;
        total_len = u32 new_length;
        raddr = add64 d.common.raddr start_offset;
      };
    }

unfoldable pub in_range : ℕ → ℕ → ToCardWorkRbDesc → Result (Option ToCardWorkRbDesc) Invalid
in_range from to (write d) =
    let max_pkt = calculate_packet_cnt d.common.pmtu d.common.raddr d.common.total_len in
    if ltb to from || leb max_pkt from || leb max_pkt to
    then err psn_range
    else ok (some (write (cut_to_range from to max_pkt d)))
in_range from to (read _) = err descriptor_type
in_range from to (write_with_imm _) = err descriptor_type
in_range from to (read_resp _) = err descriptor_type

unfoldable pub get_descritpor :
    Key → Option (ℕ × ℕ) → RetryMap → Result (Option ToCardWorkRbDesc) Invalid
get_descritpor key range m = elim (find key m.entries) [
  | none ↦ ok none
  | some ctx ↦ elim range [
    | none ↦ ok (some ctx.descriptor)
    | some (from, to) ↦ in_range from to ctx.descriptor
  ]
]

pub data Effect : Type 0 where
  send_work_desc : Key → ToCardWorkRbDesc → Effect
  set_error : Key → Effect

-- Whether an entry is due.
abbrev pub is_due : ℕ → RetryContext → Bool
is_due now ctx = ctx.is_initiative && leb ctx.next_timeout now

-- One turn of the loop of `check_timeout`: the entry, what is asked for, and whether it is given up.
unfoldable pub check_entry : ℕ → ℕ → Key → RetryContext → RetryContext × (List Effect × Bool)
check_entry now retry_timeout key ctx =
    if is_due now ctx
    then if ltb 0 ctx.retry_counter
      then (
        record ctx { retry_counter = ctx.retry_counter - 1; next_timeout = now + retry_timeout },
        (send_work_desc key ctx.descriptor ∷ [], false),
      )
      else (ctx, (set_error key ∷ [], true))
    else (ctx, ([], false))

unfoldable pub check_entries :
    ℕ → ℕ → List (Key × RetryContext) → List (Key × RetryContext) × (List Effect × Bool)
check_entries now retry_timeout [] = ([], ([], false))
check_entries now retry_timeout ((key, ctx) ∷ rest) =
    let (ctx', (es, removed)) = check_entry now retry_timeout key ctx in
    let (rest', (es', removed')) = check_entries now retry_timeout rest in
    ((key, ctx') ∷ rest', (es ++ es', removed || removed'))

unfoldable pub clean_exceed_timeout : List (Key × RetryContext) → List (Key × RetryContext)
clean_exceed_timeout [] = []
clean_exceed_timeout ((key, ctx) ∷ rest) =
    let kept = clean_exceed_timeout rest in
    if ltb 0 ctx.retry_counter then (key, ctx) ∷ kept else kept

unfoldable pub check_timeout : ℕ → ℕ → RetryMap → RetryMap × List Effect
check_timeout now retry_timeout m =
    let (entries, (es, has_removed)) = check_entries now retry_timeout m.entries in
    (record m { entries = if has_removed then clean_exceed_timeout entries else entries }, es)
