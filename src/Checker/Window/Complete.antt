-- ===== src/Checker/Window/Complete.antt =====
-- What a complete window has.
use dtld_rdma_driver.Base.{
  ℕ, zero, suc, ◌+◌, ◌-◌, ◌^◌, ◌<◌, ◌≤◌, ◌≡◌, refl, sym, ap, ◌∙◌, inl, inr, ◌⊎◌, Bool, true, false,
  ◌&&◌, List, [], ◌∷◌, leb, ◌==◌, sub32, leb_iff, ==_iff, Bool-cases, arith,
}
use dtld_rdma_driver.Checker.Window.{Interval, is_complete}
use dtld_rdma_driver.Checker.Window.Order.{IsSorted, Above, tail-Above, tail-IsSorted}
use dtld_rdma_driver.Checker.Window.Merge.{leb-false}
use dtld_rdma_driver.Checker.Window.Cover.{covers, Reaches}

abbrev pub all_below : ℕ → (ℕ → Bool) → Bool
all_below zero f = true
all_below (suc n) f = f n && all_below n f

and_true : (a b : Bool) → (a && b) ≡ true → (a ≡ true) × (b ≡ true)
and_true true b h = (refl, h)
and_true false b h = absurd (cc)

below : (x n : ℕ) → x < suc n → (x == n) ≡ false → x < n
below x n b e = ground arith

pub all_below-true : (n : ℕ) (f : ℕ → Bool) (x : ℕ) → all_below n f ≡ true → x < n → f x ≡ true
all_below-true zero f x h b = absurd (omega (arith, b))
all_below-true (suc n) f x h b = elim (Bool-cases (x == n)) [
  | inl e ↦ ap f ((==_iff x n).0 e) ∙ (and_true (f n) (all_below n f) h).0
  | inr e ↦ all_below-true n f x (and_true (f n) (all_below n f) h).1 (below x n b e)
]

pub true-all_below : (n : ℕ) (f : ℕ → Bool) → ((x : ℕ) → x < n → f x ≡ true) → all_below n f ≡ true
true-all_below zero f h = refl
true-all_below (suc n) f h =
    rw (h n (omega arith)) (true-all_below n f (λ x b. h x (omega (arith, b))))

pub all_below-ext : (n : ℕ) (f g : ℕ → Bool) → ((x : ℕ) → f x ≡ g x) → all_below n f ≡ all_below n g
all_below-ext zero f g h = refl
all_below-ext (suc n) f g h = rw (h n, all_below-ext n f g h) refl

covers-Above : (k x : ℕ) (is : List Interval) → Above k is → x ≤ k → covers x is ≡ false
covers-Above k x [] a h = refl
covers-Above k x ((s, e) ∷ is) (a, b) h = rw (covers-Above k x is b h) (ground arith)

pub single-Reaches : (x : ℕ) (is : List Interval) → IsSorted is → Reaches x x is
single-Reaches x [] v = tt
single-Reaches x ((s, e) ∷ is) v =
    let (o, _) = tail-Above s e is v in (near x s e o, single-Reaches x is (tail-IsSorted s e is v))
  where
    near : (x s e : ℕ) → s ≤ e → (s ≤ x) ⊎ ((x + 1 < s) ⊎ (x ≤ e))
    near x s e o = elim (Bool-cases (leb s x)) [
      | inl t ↦ inl ((leb_iff s x).0 t)
      | inr t ↦ inr (inr (omega (arith, o, leb-false s x t)))
    ]

starts_at_zero :
    (s e : ℕ) (is : List Interval) → Above (e + 1) is → covers 0 ((s, e) ∷ is) ≡ true → s ≡ 0
starts_at_zero s e is a h = ground (arith, covers-Above (e + 1) 0 is a (omega arith))

covers-next :
    (s e : ℕ) (is : List Interval) → Above (e + 1) is → covers (e + 1) ((s, e) ∷ is) ≡ false
covers-next s e is a = rw (covers-Above (e + 1) (e + 1) is a (omega arith)) (ground arith)

covers-end : (s e : ℕ) (is : List Interval) → s ≤ e → covers e ((s, e) ∷ is) ≡ true
covers-end s e is h = ground arith

covers-first : (s e x : ℕ) (is : List Interval) → s ≡ 0 → x ≤ e → covers x ((s, e) ∷ is) ≡ true
covers-first s e x is h b = ground arith

last_reached :
    (s e n : ℕ) (is : List Interval)
    → n < 2 ^ 32
    → s ≤ e
    → Above (e + 1) is
    → e < n
    → all_below n (λ x. covers x ((s, e) ∷ is)) ≡ true
    → e ≡ sub32 n 1
last_reached s e n is small o a b t = elim (Bool-cases (leb n (e + 1))) [
  | inl u ↦ omega (arith, b, (leb_iff n (e + 1)).0 u, small)
  | inr u ↦
      let reached =
        all_below-true n (λ x. covers x ((s, e) ∷ is)) (e + 1) t (leb-false n (e + 1) u) in
      let missing = covers-next s e is a in absurd (cc (reached, missing))
]

complete_test : (s e n : ℕ) → e ≡ sub32 n 1 → s ≡ 0 → (e == sub32 n 1 && s == 0) ≡ true
complete_test s e n a b = rw ((==_iff e (sub32 n 1)).1 a, (==_iff s 0).1 b) refl

passed :
    (s e n : ℕ) → 0 < n → n < 2 ^ 32 → (e == sub32 n 1 && s == 0) ≡ true → (s ≡ 0) × (e ≡ n - 1)
passed s e n pos small h =
    let (a, b) = and_true (e == sub32 n 1) (s == 0) h in
    ((==_iff s 0).0 b, omega (arith, (==_iff e (sub32 n 1)).0 a, pos, small))

-- A sorted window whose offsets are below `n` is complete exactly if it has them all.
pub is_complete-covers :
    (start n : ℕ) (is : List Interval)
    → 0 < n
    → n < 2 ^ 32
    → IsSorted is
    → ((x : ℕ) → covers x is ≡ true → x < n)
    → is_complete (record { intervals = is; start_psn = start; num_of_packets = n })
      ≡ all_below n (λ x. covers x is)
unfolding is_complete
is_complete-covers start zero [] pos small v bound = absurd (omega arith)
is_complete-covers start (suc n) [] pos small v bound = refl
is_complete-covers start n ((s, e) ∷ is) pos small v bound =
    let (o, above) = tail-Above s e is v in
    elim (Bool-cases (all_below n (λ x. covers x ((s, e) ∷ is)))) [
      | inl t ↦
          let zeroth = all_below-true n (λ x. covers x ((s, e) ∷ is)) 0 t pos in
          complete_test s e n
            (last_reached s e n is small o above (bound e (covers-end s e is o)) t)
            (starts_at_zero s e is above zeroth)
          ∙ sym t
      | inr t ↦ elim (Bool-cases (e == sub32 n 1 && s == 0)) [
        | inl u ↦
            let (a, b) = passed s e n pos small u in
            u ∙ sym (true-all_below n _ (λ x h. covers-first s e x is a (omega (arith, h, b))))
        | inr u ↦ u ∙ sym t
      ]
    ]
