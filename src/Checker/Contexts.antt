-- ===== src/Checker/Contexts.antt =====
-- The receive contexts of rust_driver/src/checker.rs: for each queue pair the messages that are
-- being received, the largest PSN received, and the status of recent messages. A hash map or a
-- `BTreeMap` is an association list.
pub mod Lookup
pub mod Recent
mod Tests
use dtld_rdma_driver.Base.{
  ℕ, zero, suc, ◌%◌, Bool, true, false, Option, some, none, List, [], ◌∷◌, get_or, set, ◌==◌,
  if◌then◌else◌,
}
use dtld_rdma_driver.Types.{Pmtu}
use dtld_rdma_driver.Types.Psn.{larger_in_psn}
use dtld_rdma_driver.Utils.{calculate_packet_cnt}
use dtld_rdma_driver.Device.Work.{ToHostWorkRbDescWriteOrReadResp}
use dtld_rdma_driver.Checker.Window
use dtld_rdma_driver.Checker.Window.{SlidingWindow, insert}

module _ {ℓ} {A : Type ℓ} where
  unfoldable pub lookup : ℕ → List (ℕ × A) → Option A
  lookup k [] = none
  lookup k ((j, a) ∷ rest) = let later = lookup k rest in if j == k then some a else later

  unfoldable pub put : ℕ → A → List (ℕ × A) → List (ℕ × A)
  put k v [] = (k, v) ∷ []
  put k v ((j, a) ∷ rest) =
      let later = put k v rest in if j == k then (k, v) ∷ rest else (j, a) ∷ later

  unfoldable pub delete : ℕ → List (ℕ × A) → List (ℕ × A)
  delete k [] = []
  delete k ((j, a) ∷ rest) = let later = delete k rest in if j == k then later else (j, a) ∷ later

abbrev pub max_msn_window_per_qp : ℕ
max_msn_window_per_qp = 16

pub data RecentQpMsnStatus : Type 0 where
  no_exist processing finished unknown : RecentQpMsnStatus

pub record RecvContext : Type 0 where
  pub is_read_resp : Bool
  pub start_addr : ℕ
  pub len_in_bytes : ℕ
  pub start_psn : ℕ
  pub recv_map : Option SlidingWindow

-- `RecvContext::from`
unfoldable pub from_event : ToHostWorkRbDescWriteOrReadResp → RecvContext
from_event event = record {
  is_read_resp = event.is_read_resp;
  start_addr = event.addr;
  len_in_bytes = event.len;
  start_psn = event.psn;
  recv_map = none;
}

unfoldable pub new_with_recvmap : ToHostWorkRbDescWriteOrReadResp → Pmtu → RecvContext
new_with_recvmap event pmtu =
    let pkt_len = calculate_packet_cnt pmtu event.addr event.len in
    record {
      is_read_resp = event.is_read_resp;
      start_addr = event.addr;
      len_in_bytes = event.len;
      start_psn = event.psn;
      recv_map = some (insert event.psn event.psn (Window.new event.psn pkt_len));
    }

unfoldable pub create_map_on_psn : ℕ → ℕ → Pmtu → RecvContext → RecvContext
create_map_on_psn last_continous_psn recved_psn pmtu ctx =
    let pkt_len = calculate_packet_cnt pmtu ctx.start_addr ctx.len_in_bytes in
    let begun = insert ctx.start_psn last_continous_psn (Window.new ctx.start_psn pkt_len) in
    record ctx { recv_map = some (insert recved_psn recved_psn begun) }

pub record PerQpContextMap : Type 0 where
  pub messages : List (ℕ × RecvContext)
  pub largest_psn_recved : ℕ
  pub recent_msn_finished : List (ℕ × RecentQpMsnStatus)

abbrev pub repeated {ℓ} : {A : Type ℓ} → ℕ → A → List A
repeated zero a = []
repeated (suc n) a = a ∷ repeated n a

abbrev pub no_recent : List (ℕ × RecentQpMsnStatus)
no_recent = repeated 16 (0, no_exist)

unfoldable pub new : ℕ → PerQpContextMap
new largest = record {
  messages = [];
  largest_psn_recved = largest;
  recent_msn_finished = no_recent;
}

unfoldable pub update_largest_psn_recved : ℕ → PerQpContextMap → PerQpContextMap
update_largest_psn_recved psn m =
    if larger_in_psn m.largest_psn_recved psn then m else record m { largest_psn_recved = psn }

abbrev pub status_of : ℕ → ℕ × RecentQpMsnStatus → RecentQpMsnStatus
status_of msn (_, no_exist) = no_exist
status_of msn (_, processing) = processing
status_of msn (previous_msn, finished) = if previous_msn == msn then finished else no_exist
status_of msn (_, unknown) = unknown

unfoldable pub query_recent_msn_status : ℕ → PerQpContextMap → RecentQpMsnStatus
query_recent_msn_status msn m =
    let idx = msn % max_msn_window_per_qp in
    status_of msn (get_or m.recent_msn_finished idx (0, no_exist))

unfoldable pub set_recent_msn_status : ℕ → RecentQpMsnStatus → PerQpContextMap → PerQpContextMap
set_recent_msn_status msn status m =
    let idx = msn % max_msn_window_per_qp in
    record m { recent_msn_finished = set m.recent_msn_finished idx (msn, status) }

abbrev pub RecvContextMap : Type 0
RecvContextMap = List (ℕ × PerQpContextMap)

abbrev pub or_insert : ℕ → PerQpContextMap → Option PerQpContextMap → PerQpContextMap
or_insert qpn fresh none = fresh
or_insert qpn fresh (some m) = m

-- `RecvContextMap::insert_ctx`: a message that is there already is replaced, and its status kept.
unfoldable pub insert_ctx : ℕ → ℕ → RecvContext → RecvContextMap → RecvContextMap
insert_ctx qpn msn ctx map =
    let per_qp = or_insert qpn (new 0) (lookup qpn map) in
    let stored = record per_qp { messages = put msn ctx per_qp.messages } in
    put qpn
      (elim (lookup msn per_qp.messages) [
        | some _ ↦ stored
        | none ↦ set_recent_msn_status msn processing stored
      ])
      map

unfoldable pub remove_ctx : ℕ → ℕ → RecvContextMap → RecvContextMap
remove_ctx qpn msn map = elim (lookup qpn map) [
  | none ↦ map
  | some per_qp ↦
      put qpn
        (set_recent_msn_status msn finished
          (record per_qp { messages = delete msn per_qp.messages }))
        map
]

unfoldable pub get_ctx : ℕ → ℕ → RecvContextMap → Option RecvContext
get_ctx qpn msn map = elim (lookup qpn map) [
  | none ↦ none
  | some per_qp ↦ lookup msn per_qp.messages
]

unfoldable pub get_or_create_per_qp_ctx : ℕ → ℕ → RecvContextMap → RecvContextMap
get_or_create_per_qp_ctx qpn psn map = put qpn (or_insert qpn (new psn) (lookup qpn map)) map

unfoldable pub query_status : ℕ → ℕ → RecvContextMap → RecentQpMsnStatus
query_status qpn msn map = elim (lookup qpn map) [
  | none ↦ no_exist
  | some per_qp ↦ query_recent_msn_status msn per_qp
]

unfoldable pub set_status : ℕ → ℕ → RecentQpMsnStatus → RecvContextMap → RecvContextMap
set_status qpn msn status map = elim (lookup qpn map) [
  | none ↦ map
  | some per_qp ↦ put qpn (set_recent_msn_status msn status per_qp) map
]
