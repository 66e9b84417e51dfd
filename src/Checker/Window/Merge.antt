-- ===== src/Checker/Window/Merge.antt =====
-- `insert` on the map is one walk over the intervals in order.
use dtld_rdma_driver.Base.{
  ℕ, ◌+◌, ◌-◌, ◌<◌, ◌≤◌, ◌≡◌, refl, ap, ◌∙◌, inl, inr, false, some, none, List, [], ◌∷◌, leb,
  ltb_iff, leb_iff, Bool-cases, Option-cases, arith,
}
use dtld_rdma_driver.Checker.Window.{
  Interval, last_up_to, first_after, merged, exists_in, merge_left, merge_right, insert_between,
  insert_range,
}
use dtld_rdma_driver.Checker.Window.Order.{
  IsSorted, extend, add, tail-IsSorted, Above, Above-weaken, tail-Above, last_up_to-none,
  last_up_to-KeyAbove, first_after-KeyAbove, insert_key-front, remove_key-front, merged-behind,
  merge_left-KeyAbove, merge_right-KeyAbove,
}

before : (s e l : ℕ) → s ≤ e → e + 1 < l → s < l
before s e l o far = omega arith

before_or_at : (s e l : ℕ) → s ≤ e → e + 1 < l → s ≤ l
before_or_at s e l o far = omega arith

left-behind :
    (l r s e : ℕ) (is : List Interval)
    → l ≤ r
    → s ≤ e
    → e + 1 < l
    → (exists_in l r (last_up_to l ((s, e) ∷ is)) ≡ exists_in l r (last_up_to l is))
      × (merge_left l (last_up_to l ((s, e) ∷ is)) ≡ merge_left l (last_up_to l is))
unfolding last_up_to exists_in merge_left
left-behind l r s e is h o far = elim (Option-cases (last_up_to l is)) [
  | inl n ↦ rw n (ground arith, ground arith)
  | inr (i, n) ↦ rw n (ground arith, ground arith)
]

right-behind :
    (l s e : ℕ) (is : List Interval) → s ≤ l → first_after l ((s, e) ∷ is) ≡ first_after l is
unfolding first_after
right-behind l s e is h = ground arith

-- Behind an interval that ends before the range and does not touch it, `insert` does what it does
-- without that interval.
insert_between-behind :
    (l r s e : ℕ) (is : List Interval)
    → l ≤ r
    → s ≤ e
    → e + 1 < l
    → Above (e + 1) is
    → insert_between l r ((s, e) ∷ is) ≡ (s, e) ∷ insert_between l r is
unfolding insert_between
insert_between-behind l r s e is h o far above =
    let (same_exists, same_merge) = left-behind l r s e is h o far in
    let above_s = Above-weaken (e + 1) s is (omega (arith, o)) above in
    let behind =
      merged-behind l r s e _ _ is (before s e l o far)
        (merge_left-KeyAbove s l (last_up_to l is) (last_up_to-KeyAbove s l is above_s))
        (merge_right-KeyAbove s r (first_after l is) (first_after-KeyAbove s l is above_s)) in
    rw (same_exists, same_merge, right-behind l s e is (before_or_at s e l o far))
      (elim (Bool-cases (exists_in l r (last_up_to l is))) [
        | inl a ↦ rw a refl
        | inr a ↦ rw a (elim (Bool-cases (exists_in l r (first_after l is))) [
          | inl b ↦ rw b refl
          | inr b ↦ rw b behind
        ])
      ])

last_up_to-at :
    (l s e : ℕ) (is : List Interval) → s ≤ l → Above l is → last_up_to l ((s, e) ∷ is) ≡ some (s, e)
unfolding last_up_to
last_up_to-at l s e is h a = rw ((leb_iff s l).1 h, last_up_to-none l is a) refl

first_after-head :
    (l s e : ℕ) (is : List Interval) → l < s → first_after l ((s, e) ∷ is) ≡ some (s, e)
unfolding first_after
first_after-head l s e is h = rw ((ltb_iff l s).1 h) refl

pub leb-false : (a b : ℕ) → leb a b ≡ false → b < a
leb-false a b h = ground arith

not_leb : (a b : ℕ) → b < a → leb a b ≡ false
not_leb a b h = ground arith

-- Before all intervals.
insert_between-front :
    (l r : ℕ) (is : List Interval) → Above l is → insert_between l r is ≡ extend l r is
unfolding insert_between exists_in merge_left merge_right merged last_up_to first_after
insert_between-front l r [] a = insert_key-front l r [] tt
insert_between-front l r ((s, e) ∷ rest) (a, b) =
    rw (last_up_to-none l ((s, e) ∷ rest) (a, b), first_after-head l s e rest a, not_leb s l a)
      (elim (Bool-cases (leb (s - 1) r)) [
        | inl t ↦ rw (t, remove_key-front s e rest) (insert_key-front l e rest b)
        | inr t ↦ rw t (insert_key-front l r ((s, e) ∷ rest) (a, b))
      ])

first_after-nil : (l : ℕ) → first_after l [] ≡ none
unfolding first_after
first_after-nil l = refl

-- At an interval that has the start of the range or touches it.
insert_between-at :
    (l r s e : ℕ) (is : List Interval)
    → s ≤ l
    → l ≤ e + 1
    → e < r
    → Above l is
    → insert_between l r ((s, e) ∷ is) ≡ extend s r is
unfolding insert_between exists_in merge_left merge_right merged
insert_between-at l r s e [] a b c v =
    rw
      (
        last_up_to-at l s e [] a v,
        right-behind l s e [] a,
        first_after-nil l,
        not_leb r e c,
        (leb_iff s l).1 a,
        (leb_iff l (e + 1)).1 b,
      )
      (rw (remove_key-front s e []) (insert_key-front s r [] tt))
insert_between-at l r s e ((s', e') ∷ is) a b c (v, vs) =
    rw
      (
        last_up_to-at l s e ((s', e') ∷ is) a (v, vs),
        right-behind l s e ((s', e') ∷ is) a,
        first_after-head l s' e' is v,
        not_leb r e c,
        (leb_iff s l).1 a,
        (leb_iff l (e + 1)).1 b,
        not_leb s' l v,
      )
      (elim (Bool-cases (leb (s' - 1) r)) [
        | inl t ↦
            rw (t, remove_key-front s e ((s', e') ∷ is), remove_key-front s' e' is)
              (insert_key-front s e' is (Above-weaken l s is a vs))
        | inr t ↦
            rw (t, remove_key-front s e ((s', e') ∷ is))
              (insert_key-front s r ((s', e') ∷ is) (Above-weaken l s ((s', e') ∷ is) a (v, vs)))
      ])

insert_between-inside :
    (l r s e : ℕ) (is : List Interval)
    → s ≤ l
    → r ≤ e
    → Above l is
    → insert_between l r ((s, e) ∷ is) ≡ (s, e) ∷ is
unfolding insert_between exists_in
insert_between-inside l r s e is a b v =
    rw (last_up_to-at l s e is a v, (leb_iff s l).1 a, (leb_iff r e).1 b) refl

insert_between-add :
    (l r : ℕ) (is : List Interval) → l ≤ r → IsSorted is → insert_between l r is ≡ add l r is
unfolding add
insert_between-add l r [] h v = insert_between-front l r [] tt
insert_between-add l r ((s, e) ∷ is) h v =
    let (o, above) = tail-Above s e is v in
    elim (Bool-cases (leb s l)) [
      | inr t ↦
          let a = leb-false s l t in
          rw t (
            insert_between-front l r ((s, e) ∷ is)
              (a, Above-weaken (e + 1) l is (omega (arith, a, o)) above))
      | inl t ↦
          let a = (leb_iff s l).0 t in
          rw t (elim (Bool-cases (leb r e)) [
            | inl u ↦
                let b = (leb_iff r e).0 u in
                rw u (
                  insert_between-inside l r s e is a b
                    (Above-weaken (e + 1) l is (omega (arith, b, h)) above))
            | inr u ↦ rw u (elim (Bool-cases (leb l (e + 1))) [
              | inl w ↦
                  let b = (leb_iff l (e + 1)).0 w in
                  rw w (
                    insert_between-at l r s e is a b (leb-false r e u)
                      (Above-weaken (e + 1) l is b above))
              | inr w ↦ rw w (
                  insert_between-behind l r s e is h o (leb-false l (e + 1) w) above
                  ∙ ap (λ t. (s, e) ∷ t) (insert_between-add l r is h (tail-IsSorted s e is v)))
            ])
          ])
    ]

pub insert_range-add :
    (l r : ℕ) (is : List Interval) → l ≤ r → IsSorted is → insert_range l r is ≡ add l r is
unfolding insert_range add
insert_range-add l r [] h v = refl
insert_range-add l r (i ∷ is) h v = insert_between-add l r (i ∷ is) h v
