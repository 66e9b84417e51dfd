-- ===== src/Device/Scheduler.antt =====
-- rust_driver/src/device/scheduler/mod.rs: a large request is cut into segments that end at
-- multiples of the scheduler's size. The threads that pass the segments on are not modelled.
-- A panic is `none`. The field `data` of `SGList` is `sges` here, since `data` is a keyword.
pub mod Psn
pub mod Pieces
pub mod Turn
pub mod Marks
pub mod Split
pub mod Packets
pub mod RoundRobin
mod Tests
use dtld_rdma_driver.Base.{
  ℕ, zero, suc, ◌+◌, ◌-◌, ◌*◌, ◌%◌, ◌^◌, min, Bool, true, false, ◌||◌, Option, some, none, List, [],
  ◌∷◌, length, get_elem?, set, u32, add64, sub32, div_ceil, ltb, leb, ◌==◌, if◌then◌else◌,
}
use dtld_rdma_driver.Types.{Pmtu, pmtu_bytes}
use dtld_rdma_driver.Types.Psn.{wrapping_add}
use dtld_rdma_driver.Utils.{get_first_packet_max_length}
use dtld_rdma_driver.Device.Work.{
  DescSge, sge_default, ToCardWorkRbDescCommon, ToCardWorkRbDescWrite, ToCardWorkRbDescWriteWithImm,
  ToCardWorkRbDesc, read, write, write_with_imm, read_resp,
}

abbrev pub max_sgl_length : ℕ
max_sgl_length = 1

pub record SgList : Type 0 where
  pub sges : List DescSge
  pub cur_level : ℕ
  pub len : ℕ

abbrev pub new_from_sge : DescSge → SgList
new_from_sge sge = record { sges = sge ∷ []; cur_level = 0; len = 1 }

abbrev sgl_default : SgList
sgl_default = record { sges = sge_default ∷ []; cur_level = 0; len = 0 }

unfoldable pub get_first_schedule_segment_length : ℕ → ℕ → ℕ
get_first_schedule_segment_length va scheduler_size =
    let offset = va % scheduler_size in sub32 scheduler_size (u32 offset)

unfoldable pub get_to_card_desc_common : ToCardWorkRbDesc → ToCardWorkRbDescCommon
get_to_card_desc_common (read req) = req.common
get_to_card_desc_common (write req) = req.common
get_to_card_desc_common (read_resp req) = req.common
get_to_card_desc_common (write_with_imm req) = req.common

unfoldable pub get_total_len : ToCardWorkRbDesc → ℕ
get_total_len (read req) = req.common.total_len
get_total_len (write req) = req.common.total_len
get_total_len (read_resp req) = req.common.total_len
get_total_len (write_with_imm req) = req.common.total_len

-- A write to an array, which panics out of range.
abbrev store : {A : Type 0} → List A → ℕ → A → Option (List A)
store xs i v = if ltb i (length xs) then some (set xs i v) else none

-- The loop of `cut_from_sgl`, on fuel: each turn looks at the next level, and there are at most
-- `origin_sgl.len` levels.
unfoldable pub cut_levels : ℕ → ℕ → ℕ → SgList → List DescSge → ℕ → Option (SgList × SgList)
cut_levels zero length level origin sges new_level = none
cut_levels (suc fuel) length level origin sges new_level =
    if ltb level origin.len
    then elim (get_elem? origin.sges level) [
      | none ↦ none
      | some cur ↦
          if leb length cur.len
          then elim (store sges new_level
              (record { addr = cur.addr; len = length; key = cur.key })) [
                | none ↦ none
                | some sges' ↦
                    let rest = record cur {
                      addr = add64 cur.addr length;
                      len = sub32 cur.len length;
                    } in
                    some (
                      record { sges = sges'; cur_level = 0; len = new_level + 1 },
                      record origin {
                        sges = set origin.sges level rest;
                        cur_level = if rest.len == 0 then level + 1 else level;
                      },
                    )
              ]
          else elim (store sges new_level cur) [
            | none ↦ none
            | some sges' ↦
                cut_levels fuel (sub32 length cur.len) (level + 1)
                  (record origin { sges = set origin.sges level (record cur { len = 0 }) }) sges'
                  (new_level + 1)
          ]
    ]
    else none

-- `cut_from_sgl`: the new list, and the list that is left.
unfoldable pub cut_from_sgl : ℕ → SgList → Option (SgList × SgList)
cut_from_sgl length origin =
    cut_levels (suc origin.len) length origin.cur_level origin sgl_default.sges 0

-- `recalculate_psn`
unfoldable pub recalculate_psn : ℕ → Pmtu → ℕ → ℕ → ℕ
recalculate_psn raddr pmtu total_len base_psn =
    let first_packet_length = min total_len (get_first_packet_max_length raddr (pmtu_bytes pmtu)) in
    let last_packet_psn =
      wrapping_add base_psn (div_ceil (total_len - first_packet_length) (pmtu_bytes pmtu)) in
    wrapping_add last_packet_psn 1

abbrev pub is_read : ToCardWorkRbDesc → Bool
is_read (read _) = true
is_read _ = false

abbrev pub sge0_of : ToCardWorkRbDesc → DescSge
sge0_of (read req) = req.sge
sge0_of (write req) = req.sge0
sge0_of (read_resp req) = req.sge0
sge0_of (write_with_imm req) = req.sge0

-- The variables of the loop of `split_descriptor`.
pub record Cursor : Type 0 where
  pub this_length : ℕ
  pub remain_data_length : ℕ
  pub current_va : ℕ
  pub base_psn : ℕ
  pub sg_list : SgList

abbrev segment_common : ToCardWorkRbDescCommon → Cursor → ToCardWorkRbDescCommon
segment_common common c = record common {
  total_len = c.this_length;
  raddr = c.current_va;
  psn = c.base_psn;
}

-- The segment that a turn of the loop makes. (A read was returned before the loop.)
unfoldable pub segment : ToCardWorkRbDesc → DescSge → Cursor → ToCardWorkRbDesc
segment (read req) sge c = read req
segment (write req) sge c = write (record req {
  sge0 = sge;
  common = segment_common req.common c;
  is_first = false;
  is_last = false;
})
segment (read_resp req) sge c = read_resp (record req {
  sge0 = sge;
  common = segment_common req.common c;
  is_first = false;
  is_last = false;
})
segment (write_with_imm req) sge c = write_with_imm (record req {
  sge0 = sge;
  common = segment_common req.common c;
  is_first = false;
  is_last = false;
})

-- The variables after a turn.
unfoldable pub advance : ℕ → Pmtu → SgList → Cursor → Cursor
advance scheduler_size pmtu sgl c =
    let remain = sub32 c.remain_data_length c.this_length in
    record {
      this_length = if ltb scheduler_size remain then scheduler_size else remain;
      remain_data_length = remain;
      current_va = add64 c.current_va c.this_length;
      base_psn = recalculate_psn c.current_va pmtu c.this_length c.base_psn;
      sg_list = sgl;
    }

-- The loop of `split_descriptor`, on fuel: each turn takes at least a byte.
unfoldable pub split_loop : ℕ → ToCardWorkRbDesc → ℕ → Cursor → Option (List ToCardWorkRbDesc)
split_loop scheduler_size desc zero c = none
split_loop scheduler_size desc (suc fuel) c =
    if ltb 0 c.remain_data_length
    then elim (cut_from_sgl c.this_length c.sg_list) [
      | none ↦ none
      | some (new_sgl, left) ↦ elim (get_elem? new_sgl.sges 0) [
        | none ↦ none
        | some sge ↦
            let pmtu = (get_to_card_desc_common desc).pmtu in
            elim (split_loop scheduler_size desc fuel (advance scheduler_size pmtu left c)) [
              | none ↦ none
              | some rest ↦ some (segment desc sge c ∷ rest)
            ]
      ]
    ]
    else some []

unfoldable pub mark_first : ℕ → ToCardWorkRbDesc → ToCardWorkRbDesc
mark_first total (read req) = read req
mark_first total (write req) =
    write (record req { is_first = true; common = record req.common { total_len = total } })
mark_first total (read_resp req) =
    read_resp (record req { is_first = true; common = record req.common { total_len = total } })
mark_first total (write_with_imm req) =
    write_with_imm
      (record req { is_first = true; common = record req.common { total_len = total } })

unfoldable pub mark_last : ToCardWorkRbDesc → ToCardWorkRbDesc
mark_last (read req) = read req
mark_last (write req) = write (record req { is_last = true })
mark_last (read_resp req) = read_resp (record req { is_last = true })
mark_last (write_with_imm req) = write_with_imm (record req { is_last = true })

unfoldable pub mark_front : ℕ → List ToCardWorkRbDesc → List ToCardWorkRbDesc
mark_front total [] = []
mark_front total (d ∷ ds) = mark_first total d ∷ ds

unfoldable pub mark_back : List ToCardWorkRbDesc → List ToCardWorkRbDesc
mark_back [] = []
mark_back (d ∷ []) = mark_last d ∷ []
mark_back (d ∷ e ∷ ds) = d ∷ mark_back (e ∷ ds)

abbrev pub start : ℕ → ToCardWorkRbDesc → Cursor
start scheduler_size desc = record {
  this_length =
      get_first_schedule_segment_length (get_to_card_desc_common desc).raddr scheduler_size;
  remain_data_length = get_total_len desc;
  current_va = (get_to_card_desc_common desc).raddr;
  base_psn = (get_to_card_desc_common desc).psn;
  sg_list = new_from_sge (sge0_of desc);
}

unfoldable pub split_descriptor : ToCardWorkRbDesc → ℕ → Option (List ToCardWorkRbDesc)
split_descriptor desc scheduler_size =
    let total_len = get_total_len desc in
    if is_read desc || ltb total_len scheduler_size
    then some (desc ∷ [])
    else elim (split_loop scheduler_size desc (suc total_len) (start scheduler_size desc)) [
      | none ↦ none
      | some descs ↦ some (mark_back (mark_front total_len descs))
    ]
