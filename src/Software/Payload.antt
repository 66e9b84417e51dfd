-- ===== src/Software/Payload.antt =====
-- `PayloadInfo` and `SGList` of rust_driver/src/device/software/types.rs: the pieces of memory that a
-- packet's payload is collected from, and the list of elements that it is cut from.
pub mod Bytes
pub mod Cut
use dtld_rdma_driver.Base.{
  ℕ, zero, suc, ◌+◌, ◌-◌, ◌%◌, Bool, Option, some, none, List, [], ◌∷◌, ◌++◌, map, Result, ok, err,
  u32, add32, add64, sub32, leb, ◌==◌, if◌then◌else◌,
}
use dtld_rdma_driver.Device.Work.{DescSge, sge_default}
use dtld_rdma_driver.Software.Message.{SgListElement}

pub record PayloadInfo : Type 0 where
  pub sg_list : List SgListElement
  pub total_len : ℕ

abbrev pub no_payload : PayloadInfo
no_payload = record { sg_list = []; total_len = 0 }

unfoldable pub new_with_data : ℕ → ℕ → PayloadInfo
new_with_data data_at len = record {
  sg_list = record { from = data_at; len = len } ∷ [];
  total_len = len;
}

unfoldable pub add : ℕ → ℕ → PayloadInfo → PayloadInfo
add data_at len payload = record {
  sg_list = payload.sg_list ++ record { from = data_at; len = len } ∷ [];
  total_len = add64 payload.total_len len;
}

-- `RDMA_PAYLOAD_ALIGNMENT`
abbrev pub rdma_payload_alignment : ℕ
rdma_payload_alignment = 4

unfoldable pub get_pad_cnt : PayloadInfo → ℕ
get_pad_cnt payload =
    let pad_cnt = rdma_payload_alignment - payload.total_len % rdma_payload_alignment in
    if pad_cnt == rdma_payload_alignment then 0 else pad_cnt

unfoldable pub with_pad_length : PayloadInfo → ℕ
with_pad_length payload = add64 payload.total_len (get_pad_cnt payload)

-- `SGList`: four elements, the level to cut from, and how many levels are in use.
pub record SgList : Type 0 where
  pub elements : List DescSge
  pub cur_level : ℕ
  pub len : ℕ

abbrev pub no_element : DescSge
no_element = sge_default

unfoldable pub new_with_sge : DescSge → SgList
new_with_sge sge = record {
  elements = sge ∷ no_element ∷ no_element ∷ no_element ∷ [];
  cur_level = 0;
  len = 1;
}

unfoldable pub get_sge_from_option : Option DescSge → DescSge × ℕ
get_sge_from_option (some sge) = (sge, 1)
get_sge_from_option none = (no_element, 0)

unfoldable pub new_with_sge_list :
    DescSge → Option DescSge → Option DescSge → Option DescSge → SgList
new_with_sge_list sge0 sge1 sge2 sge3 =
    let (e1, c1) = get_sge_from_option sge1 in
    let (e2, c2) = get_sge_from_option sge2 in
    let (e3, c3) = get_sge_from_option sge3 in
    record { elements = sge0 ∷ e1 ∷ e2 ∷ e3 ∷ []; cur_level = 0; len = 1 + c1 + c2 + c3 }

abbrev pub sum_lengths : List DescSge → ℕ
sum_lengths [] = 0
sum_lengths (sge ∷ rest) = sge.len + sum_lengths rest

-- The sum of 32-bit lengths; it does not wrap where the data is addressable in 32 bits.
unfoldable pub get_total_length : SgList → ℕ
get_total_length s = u32 (sum_lengths s.elements)

-- What the loop of `cut` makes of the elements from the current level on: the elements after it, how
-- many levels it went past, and whether it emptied the one it ended in.
pub record Cutting : Type 0 where
  pub payload : PayloadInfo
  pub elements : List DescSge
  pub passed : ℕ
  pub emptied : Bool

-- The last part of a cut, inside one element.
abbrev pub cut_within : ℕ → PayloadInfo → DescSge → List DescSge → Cutting
cut_within length payload sge rest = record {
  payload = add sge.addr length payload;
  elements = record sge { addr = add64 sge.addr length; len = sge.len - length } ∷ rest;
  passed = 0;
  emptied = sge.len - length == 0;
}

abbrev pub kept_before : DescSge → Cutting → Cutting
kept_before sge c = record c { elements = sge ∷ c.elements; passed = suc c.passed }

-- The loop, on the number of levels that are left to look at. None is the error `Unreachable`; an
-- index out of the array, which panics, cannot come up while `len` is at most four.
unfoldable pub cut_levels : ℕ → ℕ → PayloadInfo → List DescSge → Option Cutting
cut_levels zero length payload elements = none
cut_levels (suc levels) length payload [] = none
cut_levels (suc levels) length payload (sge ∷ rest) =
    if leb length sge.len
    then some (cut_within length payload sge rest)
    else elim (cut_levels levels (length - sge.len) (add sge.addr sge.len payload) rest) [
      | none ↦ none
      | some c ↦ some (kept_before (record sge { len = 0 }) c)
    ]

-- The same below the current level, whose elements stay as they are.
unfoldable pub cut_below : ℕ → ℕ → ℕ → List DescSge → Option Cutting
cut_below zero levels length elements = cut_levels levels length no_payload elements
cut_below (suc skipped) levels length [] = none
cut_below (suc skipped) levels length (sge ∷ rest) = elim (cut_below skipped levels length rest) [
  | none ↦ none
  | some c ↦ some (record c { elements = sge ∷ c.elements })
]

abbrev pub left_after : SgList → Cutting → SgList
left_after s c = record s {
  elements = c.elements;
  cur_level = if c.emptied then s.cur_level + c.passed + 1 else s.cur_level;
}

-- `SGList::cut`
unfoldable pub cut : ℕ → SgList → Option (PayloadInfo × SgList)
cut length s = elim (cut_below s.cur_level (s.len - s.cur_level) length s.elements) [
  | none ↦ none
  | some c ↦ some (c.payload, left_after s c)
]

unfoldable pub add_all : List DescSge → PayloadInfo → PayloadInfo
add_all [] payload = payload
add_all (sge ∷ rest) payload = add_all rest (add sge.addr sge.len payload)

-- `SGList::cut_all_levels`: the payload, and the list without its lengths.
unfoldable pub cut_all_levels : SgList → PayloadInfo × SgList
cut_all_levels s = (
  add_all s.elements no_payload,
  record s {
    elements = map {A = DescSge} {B = DescSge} (λ sge. record sge { len = 0 }) s.elements;
  },
)
