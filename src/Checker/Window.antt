-- ===== src/Checker/Window.antt =====
-- `SlidingWindow` of rust_driver/src/checker.rs: the packets of a message that have arrived, as
-- intervals of offsets from the first. The `BTreeMap` is the list of its entries in the order of
-- the keys.
pub mod Order
pub mod Merge
pub mod Cover
pub mod Complete
pub mod Record
pub mod Gap
mod Tests
use dtld_rdma_driver.Base.{
  ℕ, ◌+◌, ◌-◌, ◌^◌, ◌%◌, Bool, true, false, not, ◌&&◌, Option, some, none, List, [], ◌∷◌, length,
  sub32, ltb, leb, ◌==◌, if◌then◌else◌,
}
use dtld_rdma_driver.Types.Psn
use dtld_rdma_driver.Types.Psn.{wrapping_add, wrapping_sub, max_window_size}

abbrev pub Interval : Type 0
Interval = ℕ × ℕ

-- `BTreeMap::insert` and `BTreeMap::remove`.
unfoldable pub insert_key : ℕ → ℕ → List Interval → List Interval
insert_key k v [] = (k, v) ∷ []
insert_key k v ((s, e) ∷ rest) =
    let deeper = insert_key k v rest in
    if ltb k s then (k, v) ∷ (s, e) ∷ rest else if k == s then (k, v) ∷ rest else (s, e) ∷ deeper

unfoldable pub remove_key : ℕ → List Interval → List Interval
remove_key k [] = []
remove_key k ((s, e) ∷ rest) =
    let deeper = remove_key k rest in if k == s then rest else (s, e) ∷ deeper

-- `range((Unbounded, Included(k))).next_back()`
unfoldable pub last_up_to : ℕ → List Interval → Option Interval
last_up_to k [] = none
last_up_to k ((s, e) ∷ rest) =
    let later = last_up_to k rest in
    if leb s k then elim later [ none ↦ some (s, e) | some i ↦ some i ] else none

-- `range((Excluded(k), Unbounded)).next()`
unfoldable pub first_after : ℕ → List Interval → Option Interval
first_after k [] = none
first_after k ((s, e) ∷ rest) =
    let later = first_after k rest in if ltb k s then some (s, e) else later

pub record SlidingWindow : Type 0 where
  pub intervals : List Interval
  pub start_psn : ℕ
  pub num_of_packets : ℕ

unfoldable pub new : ℕ → ℕ → SlidingWindow
new start num_of_packets = record {
  intervals = [];
  start_psn = start;
  num_of_packets = num_of_packets;
}

unfoldable pub is_complete : SlidingWindow → Bool
is_complete w = elim w.intervals [
  | [] ↦ false
  | (start, end) ∷ _ ↦ end == sub32 w.num_of_packets 1 && start == 0
]

-- The last statement of `insert`: one new interval in place of those it is merged with.
unfoldable pub merged : ℕ → ℕ → Option Interval → Option Interval → List Interval → List Interval
merged abs_left abs_right (some (left_start, _)) (some (right_start, right_end)) intervals =
    insert_key left_start right_end (remove_key right_start (remove_key left_start intervals))
merged abs_left abs_right (some (left_start, _)) none intervals =
    insert_key left_start abs_right (remove_key left_start intervals)
merged abs_left abs_right none (some (right_start, right_end)) intervals =
    insert_key abs_left right_end (remove_key right_start intervals)
merged abs_left abs_right none none intervals = insert_key abs_left abs_right intervals

-- The test on a neighbour that has the whole range.
unfoldable pub exists_in : ℕ → ℕ → Option Interval → Bool
exists_in abs_left abs_right none = false
exists_in abs_left abs_right (some (start, end)) = leb start abs_left && leb abs_right end

unfoldable pub merge_left : ℕ → Option Interval → Option Interval
merge_left abs_left none = none
merge_left abs_left (some (start, end)) = if leb abs_left (end + 1) then some (start, end) else none

unfoldable pub merge_right : ℕ → Option Interval → Option Interval
merge_right abs_right none = none
merge_right abs_right (some (start, end)) =
    if leb (start - 1) abs_right then some (start, end) else none

-- What `insert` does to the intervals, from the test that the map is empty on. (The key of a right
-- neighbour is above another number, so that it is not 0 where 1 is taken from it.)
unfoldable pub insert_between : ℕ → ℕ → List Interval → List Interval
insert_between abs_left abs_right intervals =
    let left = last_up_to abs_left intervals in
    let right = first_after abs_left intervals in
    if exists_in abs_left abs_right left
    then intervals
    else if exists_in abs_left abs_right right
    then intervals
    else merged abs_left abs_right (merge_left abs_left left) (merge_right abs_right right)
        intervals

unfoldable pub insert_range : ℕ → ℕ → List Interval → List Interval
insert_range abs_left abs_right [] = (abs_left, abs_right) ∷ []
insert_range abs_left abs_right (i ∷ is) = insert_between abs_left abs_right (i ∷ is)

unfoldable pub insert : ℕ → ℕ → SlidingWindow → SlidingWindow
insert from to w =
    if is_complete w
    then w
    else let abs_left = wrapping_sub from w.start_psn in
      if leb max_window_size abs_left
      then w
      else let abs_right = wrapping_sub to w.start_psn in
        if leb max_window_size abs_right
        then w
        else record w { intervals = insert_range abs_left abs_right w.intervals }

unfoldable pub is_out_of_order : SlidingWindow → Bool
is_out_of_order w = not (is_complete w) && ltb 1 (length w.intervals)

-- The value at key 0; none where the index panics.
unfoldable pub value_at_zero : List Interval → Option ℕ
value_at_zero [] = none
value_at_zero ((s, e) ∷ rest) = let later = value_at_zero rest in if s == 0 then some e else later

-- `try_get_recover_psn`: none if it panics, `some none` for `None`.
unfoldable pub try_get_recover_psn : SlidingWindow → Option (Option ℕ)
try_get_recover_psn w = if is_out_of_order w then some none else elim (value_at_zero w.intervals) [
  | none ↦ none
  | some end ↦ some (some (wrapping_add w.start_psn (end + 1)))
]

unfoldable pub last_psn : SlidingWindow → ℕ
last_psn w = wrapping_add w.start_psn (sub32 w.num_of_packets 1)

-- The last two entries, from the last on: key of the last, value of the one before.
unfoldable pub last_two : List Interval → Option (ℕ × ℕ)
last_two [] = none
last_two (_ ∷ []) = none
last_two ((_, e) ∷ (s, _) ∷ []) = some (s, e)
last_two (_ ∷ i ∷ j ∷ rest) = last_two (i ∷ j ∷ rest)

abbrev pub gap_psns : Option (ℕ × ℕ) → Option (ℕ × ℕ)
gap_psns none = none
gap_psns (some (left, right)) = some (Psn.new ((left + 1) % 2 ^ 32), Psn.new (sub32 right 1))

-- `get_recent_gap`, without its assertion that one more than the start of the last interval is not
-- the end of the one before: `insert` keeps the intervals in order and apart, and for such intervals
-- it holds.
unfoldable pub get_recent_gap : SlidingWindow → Option (ℕ × ℕ)
get_recent_gap w = gap_psns (last_two w.intervals)

-- `get_continous_range`
unfoldable pub get_continous_range : ℕ → ℕ → Option (ℕ × ℕ)
get_continous_range largest_psn_recved expected_psn =
    let left = wrapping_add largest_psn_recved 1 in
    let right = wrapping_sub expected_psn 1 in
    if leb (wrapping_sub right left) max_window_size then some (left, right) else none
