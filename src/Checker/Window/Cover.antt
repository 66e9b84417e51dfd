-- ===== src/Checker/Window/Cover.antt =====
-- Which offsets the window has, before and after `insert`.
use dtld_rdma_driver.Base.{
  ℕ, ◌+◌, ◌-◌, ◌<◌, ◌≤◌, ◌≡◌, refl, sym, ap, ◌∙◌, inl, inr, ◌⊎◌, Bool, true, false, ◌&&◌, ◌||◌,
  List, [], ◌∷◌, leb, leb_iff, Bool-cases, All, arith,
}
use dtld_rdma_driver.Checker.Window.{Interval, insert_range}
use dtld_rdma_driver.Checker.Window.Order.{
  IsSorted, extend, add, Above, Above-weaken, tail-Above, Above-weaken, tail-IsSorted,
}
use dtld_rdma_driver.Checker.Window.Merge.{insert_range-add, leb-false}

abbrev pub covers : ℕ → List Interval → Bool
covers x [] = false
covers x ((s, e) ∷ is) = (leb s x && leb x e) || covers x is

-- The range ends before each interval on its right, without touching it, or no later than it ends.
abbrev pub Reaches : ℕ → ℕ → List Interval → Type 0
Reaches l r = All (λ i. (i.0 ≤ l) ⊎ ((r + 1 < i.0) ⊎ (r ≤ i.1)))

or_assoc : (a b c : Bool) → ((a || b) || c) ≡ (a || (b || c))
or_assoc true b c = refl
or_assoc false b c = refl

swap_last : (a b c : Bool) → ((a || b) || c) ≡ ((a || c) || b)
swap_last true b c = refl
swap_last false true true = refl
swap_last false true false = refl
swap_last false false true = refl
swap_last false false false = refl

swap_or : (a b : Bool) → (a || b) ≡ (b || a)
swap_or true true = refl
swap_or true false = refl
swap_or false true = refl
swap_or false false = refl

touching : (l r s e : ℕ) → l < s → s - 1 ≤ r → (s ≤ l) ⊎ ((r + 1 < s) ⊎ (r ≤ e)) → r ≤ e
touching l r s e a b (inl h) = absurd (omega arith)
touching l r s e a b (inr (inl h)) = absurd (omega arith)
touching l r s e a b (inr (inr h)) = h

joined :
    (l r s' e' x : ℕ)
    → l ≤ r
    → l < s'
    → s' ≤ e'
    → s' - 1 ≤ r
    → r ≤ e'
    → (leb l x && leb x e') ≡ ((leb l x && leb x r) || (leb s' x && leb x e'))
joined l r s' e' x a b c d f = ground arith

grown :
    (l r s e x : ℕ)
    → s ≤ l
    → l ≤ e + 1
    → e < r
    → (leb s x && leb x r) ≡ ((leb s x && leb x e) || (leb l x && leb x r))
grown l r s e x a b c = ground arith

inside :
    (l r s e x : ℕ)
    → s ≤ l
    → r ≤ e
    → (leb s x && leb x e) ≡ ((leb s x && leb x e) || (leb l x && leb x r))
inside l r s e x a b = ground arith

extend-covers :
    (l k r : ℕ) (is : List Interval) (x : ℕ)
    → k ≤ l
    → l ≤ r
    → IsSorted is
    → Above l is
    → Reaches l r is
    → covers x (extend k r is) ≡ ((leb k x && leb x r) || covers x is)
extend-covers l k r [] x kl h v a rs = refl
extend-covers l k r ((s, e) ∷ is) x kl h v (a, _) (reach, _) =
    let (o, _) = tail-Above s e is v in
    elim (Bool-cases (leb (s - 1) r)) [
      | inl t ↦
          let b = (leb_iff (s - 1) r).0 t in
          rw t (
            ap (λ c. c || covers x is)
              (joined k r s e x (omega (arith, kl, h)) (omega (arith, kl, a)) o b
                (touching l r s e a b reach))
            ∙ or_assoc (leb k x && leb x r) (leb s x && leb x e) (covers x is))
      | inr t ↦ rw t refl
    ]

-- Adding a range adds its offsets and no others, if it does not end between an interval on its
-- right that it touches and that interval's end.
add-covers :
    (l r : ℕ) (is : List Interval) (x : ℕ)
    → l ≤ r
    → IsSorted is
    → Reaches l r is
    → covers x (add l r is) ≡ (covers x is || (leb l x && leb x r))
unfolding add
add-covers l r [] x h v rs = swap_or (leb l x && leb x r) false
add-covers l r ((s, e) ∷ is) x h v (reach, rs) =
    let (o, above) = tail-Above s e is v in
    elim (Bool-cases (leb s l)) [
      | inr t ↦
          let a = leb-false s l t in
          rw t (
            extend-covers l l r ((s, e) ∷ is) x (omega arith) h v
              (a, Above-weaken (e + 1) l is (omega (arith, a, o)) above) (reach, rs)
            ∙ swap_or (leb l x && leb x r) (covers x ((s, e) ∷ is)))
      | inl t ↦
          let a = (leb_iff s l).0 t in
          rw t (elim (Bool-cases (leb r e)) [
            | inl u ↦ rw u (
                ap (λ c. c || covers x is) (inside l r s e x a ((leb_iff r e).0 u))
                ∙ swap_last (leb s x && leb x e) (leb l x && leb x r) (covers x is))
            | inr u ↦ rw u (elim (Bool-cases (leb l (e + 1))) [
              | inl w ↦
                  let b = (leb_iff l (e + 1)).0 w in
                  rw w (
                    extend-covers l s r is x a h (tail-IsSorted s e is v)
                      (Above-weaken (e + 1) l is b above) rs
                    ∙ ap (λ c. c || covers x is) (grown l r s e x a b (leb-false r e u))
                    ∙ swap_last (leb s x && leb x e) (leb l x && leb x r) (covers x is))
              | inr w ↦ rw w (
                  ap (λ c. (leb s x && leb x e) || c)
                    (add-covers l r is x h (tail-IsSorted s e is v) rs)
                  ∙ sym (or_assoc (leb s x && leb x e) (covers x is) (leb l x && leb x r)))
            ])
          ])
    ]

extend-IsSorted :
    (l k r : ℕ) (is : List Interval)
    → k ≤ l
    → l ≤ r
    → IsSorted is
    → Above l is
    → IsSorted (extend k r is)
extend-IsSorted l k r [] kl h v a = omega arith
extend-IsSorted l k r ((s, e) ∷ []) kl h v (a, _) = ground arith
extend-IsSorted l k r ((s, e) ∷ (s', e') ∷ is) kl h (o, g, v) (a, _) = ground arith

extend-Above : (k l r : ℕ) (is : List Interval) → k < l → Above k is → Above k (extend l r is)
extend-Above k l r [] h a = (h, tt)
extend-Above k l r ((s, e) ∷ is) h (a, b) = elim (Bool-cases (leb (s - 1) r)) [
  | inl t ↦ rw t (h, b)
  | inr t ↦ rw t (h, (a, b))
]

-- What stands behind an interval that ends before the range stays behind it.
add-Above : (k l r : ℕ) (is : List Interval) → k < l → Above k is → Above k (add l r is)
unfolding add
add-Above k l r [] h a = (h, tt)
add-Above k l r ((s, e) ∷ is) h (a, b) = elim (Bool-cases (leb s l)) [
  | inr t ↦ rw t (extend-Above k l r ((s, e) ∷ is) h (a, b))
  | inl t ↦ rw t (elim (Bool-cases (leb r e)) [
    | inl u ↦ rw u (a, b)
    | inr u ↦ rw u (elim (Bool-cases (leb l (e + 1))) [
      | inl w ↦ rw w (extend-Above k s r is a b)
      | inr w ↦ rw w (a, add-Above k l r is h b)
    ])
  ])
]

IsSorted-cons :
    (s e : ℕ) (is : List Interval) → s ≤ e → Above (e + 1) is → IsSorted is → IsSorted ((s, e) ∷ is)
IsSorted-cons s e [] o a v = o
IsSorted-cons s e (i ∷ is) o (a, _) v = (o, a, v)

add-IsSorted : (l r : ℕ) (is : List Interval) → l ≤ r → IsSorted is → IsSorted (add l r is)
unfolding add
add-IsSorted l r [] h v = h
add-IsSorted l r ((s, e) ∷ is) h v =
    let (o, above) = tail-Above s e is v in
    elim (Bool-cases (leb s l)) [
      | inr t ↦
          let a = leb-false s l t in
          rw t (
            extend-IsSorted l l r ((s, e) ∷ is) (omega arith) h v
              (a, Above-weaken (e + 1) l is (omega (arith, a, o)) above))
      | inl t ↦
          let a = (leb_iff s l).0 t in
          rw t (elim (Bool-cases (leb r e)) [
            | inl u ↦ rw u v
            | inr u ↦ rw u (elim (Bool-cases (leb l (e + 1))) [
              | inl w ↦ rw w (
                  extend-IsSorted l s r is a h (tail-IsSorted s e is v)
                    (Above-weaken (e + 1) l is ((leb_iff l (e + 1)).0 w) above))
              | inr w ↦ rw w (
                  IsSorted-cons s e (add l r is) o
                    (add-Above (e + 1) l r is (leb-false l (e + 1) w) above)
                    (add-IsSorted l r is h (tail-IsSorted s e is v)))
            ])
          ])
    ]

-- Recording a range of offsets, whatever range it is, keeps the intervals in order, apart and not
-- empty.
pub insert_range-IsSorted :
    (l r : ℕ) (is : List Interval) → l ≤ r → IsSorted is → IsSorted (insert_range l r is)
insert_range-IsSorted l r is h v = rw (insert_range-add l r is h v) (add-IsSorted l r is h v)

-- After a range of at least one offset is recorded in intervals that are in order, apart and not
-- empty, the window has exactly the offsets it had and those of the range, if the range ends far
-- enough to the left: for each interval that starts to the right of its start, it ends either so early
-- that it does not touch that interval, or no later than that interval ends. (A range that goes on
-- past the end of such an interval is cut off there.)
pub insert_range-covers :
    (l r x : ℕ) (is : List Interval)
    → l ≤ r
    → IsSorted is
    → Reaches l r is
    → covers x (insert_range l r is) ≡ (covers x is || (leb l x && leb x r))
insert_range-covers l r x is h v reach =
    rw (insert_range-add l r is h v) (add-covers l r is x h v reach)
