-- ===== src/Checker/Window/Order.antt =====
-- Intervals in order, and the operations of the map on them.
use dtld_rdma_driver.Base.{
  ℕ, ◌+◌, ◌-◌, ◌<◌, ◌≤◌, ◌≡◌, refl, Option, some, none, List, [], ◌∷◌, leb, if◌then◌else◌, ==_refl,
  All, arith,
}
use dtld_rdma_driver.Checker.Window.{
  Interval, insert_key, remove_key, last_up_to, first_after, merged, merge_left, merge_right,
}

-- Intervals in order, none empty, with a gap after each: no two of them could be one.
abbrev pub IsSorted : List Interval → Type 0
IsSorted [] = Unit
IsSorted ((s, e) ∷ []) = s ≤ e
IsSorted ((s, e) ∷ (s', e') ∷ rest) = (s ≤ e) × (e + 1 < s') × IsSorted ((s', e') ∷ rest)

-- A range added behind an interval that ends before it or touches it.
abbrev pub extend : ℕ → ℕ → List Interval → List Interval
extend s r [] = (s, r) ∷ []
extend s r ((s', e') ∷ rest) = if leb (s' - 1) r then (s, e') ∷ rest else (s, r) ∷ (s', e') ∷ rest

-- The walk.
unfoldable pub add : ℕ → ℕ → List Interval → List Interval
add l r [] = (l, r) ∷ []
add l r ((s, e) ∷ rest) =
    let deeper = add l r rest in
    if leb s l
    then if leb r e
      then (s, e) ∷ rest
      else if leb l (e + 1)
      then extend s r rest
      else (s, e) ∷ deeper
    else extend l r ((s, e) ∷ rest)

pub tail-IsSorted : (s e : ℕ) (rest : List Interval) → IsSorted ((s, e) ∷ rest) → IsSorted rest
tail-IsSorted s e [] v = tt
tail-IsSorted s e (i ∷ rest) (_, _, v) = v

-- All intervals start after `k`.
abbrev pub Above : ℕ → List Interval → Type 0
Above k = All (λ i. k < i.0)

pub Above-weaken : (k k' : ℕ) (is : List Interval) → k' ≤ k → Above k is → Above k' is
Above-weaken k k' [] h a = tt
Above-weaken k k' (i ∷ is) h (a, b) = (omega (arith, h, a), Above-weaken k k' is h b)

pub tail-Above :
    (s e : ℕ) (rest : List Interval) → IsSorted ((s, e) ∷ rest) → (s ≤ e) × Above (e + 1) rest
tail-Above s e [] v = (v, tt)
tail-Above s e ((s', e') ∷ rest) (o, h, v) =
    let (o', a) = tail-Above s' e' rest v in
    (o, (h, Above-weaken (e' + 1) (e + 1) rest (omega (arith, h, o')) a))

pub last_up_to-none : (k : ℕ) (is : List Interval) → Above k is → last_up_to k is ≡ none
unfolding last_up_to
last_up_to-none k [] h = refl
last_up_to-none k ((s, e) ∷ rest) (h, _) = ground (arith, h)

abbrev pub KeyAbove : ℕ → Option Interval → Type 0
KeyAbove k none = Unit
KeyAbove k (some (s, _)) = k < s

pub last_up_to-KeyAbove : (k l : ℕ) (is : List Interval) → Above k is → KeyAbove k (last_up_to l is)
unfolding last_up_to
last_up_to-KeyAbove k l [] h = tt
last_up_to-KeyAbove k l ((s, e) ∷ rest) (h, hs) = ground (arith, h, last_up_to-KeyAbove k l rest hs)

pub first_after-KeyAbove :
    (k l : ℕ) (is : List Interval) → Above k is → KeyAbove k (first_after l is)
unfolding first_after
first_after-KeyAbove k l [] h = tt
first_after-KeyAbove k l ((s, e) ∷ rest) (h, hs) =
    ground (arith, h, first_after-KeyAbove k l rest hs)

pub insert_key-front : (k v : ℕ) (is : List Interval) → Above k is → insert_key k v is ≡ (k, v) ∷ is
unfolding insert_key
insert_key-front k v [] h = refl
insert_key-front k v ((s, e) ∷ rest) (h, _) = ground (arith, h)

pub insert_key-behind :
    (k v s e : ℕ) (is : List Interval)
    → s < k
    → insert_key k v ((s, e) ∷ is) ≡ (s, e) ∷ insert_key k v is
unfolding insert_key
insert_key-behind k v s e is h = ground arith

pub remove_key-behind :
    (k s e : ℕ) (is : List Interval) → s < k → remove_key k ((s, e) ∷ is) ≡ (s, e) ∷ remove_key k is
unfolding remove_key
remove_key-behind k s e is h = ground arith

pub remove_key-front : (s e : ℕ) (is : List Interval) → remove_key s ((s, e) ∷ is) ≡ is
unfolding remove_key
remove_key-front s e is = rw (==_refl s) refl

pub merged-behind :
    (l r s e : ℕ) (left right : Option Interval) (is : List Interval)
    → s < l
    → KeyAbove s left
    → KeyAbove s right
    → merged l r left right ((s, e) ∷ is) ≡ (s, e) ∷ merged l r left right is
unfolding merged
merged-behind l r s e none none is h a b = insert_key-behind l r s e is h
merged-behind l r s e none (some (rs, re)) is h a b =
    rw (remove_key-behind rs s e is b) (insert_key-behind l re s e (remove_key rs is) h)
merged-behind l r s e (some (ls, le)) none is h a b =
    rw (remove_key-behind ls s e is a) (insert_key-behind ls r s e (remove_key ls is) a)
merged-behind l r s e (some (ls, le)) (some (rs, re)) is h a b =
    rw (remove_key-behind ls s e is a, remove_key-behind rs s e (remove_key ls is) b)
      (insert_key-behind ls re s e (remove_key rs (remove_key ls is)) a)

pub merge_left-KeyAbove :
    (k l : ℕ) (o : Option Interval) → KeyAbove k o → KeyAbove k (merge_left l o)
unfolding merge_left
merge_left-KeyAbove k l none h = tt
merge_left-KeyAbove k l (some (s, e)) h = ground (arith, h)

pub merge_right-KeyAbove :
    (k r : ℕ) (o : Option Interval) → KeyAbove k o → KeyAbove k (merge_right r o)
unfolding merge_right
merge_right-KeyAbove k r none h = tt
merge_right-KeyAbove k r (some (s, e)) h = ground (arith, h)
