-- ===== src/Checker/Window/Record.antt =====
-- When the packets of a message are recorded one by one.
use dtld_rdma_driver.Base.{
  ℕ, ◌^◌, ◌<◌, ◌≤◌, ◌≡◌, refl, sym, ap, ◌∙◌, inl, inr, Bool, true, false, ◌&&◌, ◌||◌, List, [], ◌∷◌,
  leb, ◌==◌, ==_iff, Bool-cases, All, arith,
}
use dtld_rdma_driver.Types.Psn.{wrapping_sub}
use dtld_rdma_driver.Checker.Window.{SlidingWindow, new, insert, is_complete}
use dtld_rdma_driver.Checker.Window.Order.{IsSorted}
use dtld_rdma_driver.Checker.Window.Cover.{covers, insert_range-IsSorted, insert_range-covers}
use dtld_rdma_driver.Checker.Window.Complete.{
  all_below, all_below-true, all_below-ext, single-Reaches, is_complete-covers,
}

-- Whether a packet at the offset is among the packets.
abbrev pub arrived : ℕ → ℕ → List ℕ → Bool
arrived start x [] = false
arrived start x (p ∷ ps) = (wrapping_sub p start == x) || arrived start x ps

-- The packets are recorded one by one, the last of the list first.
abbrev pub record_all : SlidingWindow → List ℕ → SlidingWindow
record_all w [] = w
record_all w (p ∷ ps) = insert p p (record_all w ps)

-- The state after some packets of a message of `n` packets, each with an offset below `n`.
record Recorded (start n : ℕ) (ps : List ℕ) (w : SlidingWindow) : Type 0 where
  begins : w.start_psn ≡ start
  counts : w.num_of_packets ≡ n
  sorted : IsSorted w.intervals
  exact : (x : ℕ) → covers x w.intervals ≡ arrived start x ps

abbrev pub Within : ℕ → ℕ → List ℕ → Type 0
Within start n = All (λ p. wrapping_sub p start < n)

arrived-Within :
    (start n x : ℕ) (ps : List ℕ) → Within start n ps → arrived start x ps ≡ true → x < n
arrived-Within start n x [] h a = absurd (cc)
arrived-Within start n x (p ∷ ps) (b, bs) a = elim (Bool-cases (wrapping_sub p start == x)) [
  | inl e ↦ omega (arith, b, (==_iff (wrapping_sub p start) x).0 e)
  | inr e ↦ arrived-Within start n x ps bs (rw e at a)
]

complete_has_all :
    (start n : ℕ) (ps : List ℕ) (w : SlidingWindow)
    → 0 < n
    → n ≤ 2 ^ 23
    → Within start n ps
    → Recorded start n ps w
    → is_complete w ≡ all_below n (λ x. arrived start x ps)
complete_has_all start n ps w pos small bs r =
    is_complete-covers w.start_psn w.num_of_packets w.intervals (omega (arith, r.counts, pos))
      (omega (arith, r.counts, small)) r.sorted
      (λ x c. omega (arith, r.counts, arrived-Within start n x ps bs (sym (r.exact x) ∙ c)))
    ∙ all_below-ext w.num_of_packets (λ x. covers x w.intervals) (λ x. arrived start x ps) r.exact
    ∙ ap (λ t. all_below t (λ x. arrived start x ps)) r.counts

already :
    (start n p x : ℕ) (ps : List ℕ)
    → wrapping_sub p start < n
    → all_below n (λ t. arrived start t ps) ≡ true
    → arrived start x ps ≡ arrived start x (p ∷ ps)
already start n p x ps b all = elim (Bool-cases (wrapping_sub p start == x)) [
  | inl e ↦ rw e (
      all_below-true n (λ t. arrived start t ps) x all
        (omega (arith, b, (==_iff (wrapping_sub p start) x).0 e)))
  | inr e ↦ rw e refl
]

same_offset : (a x : ℕ) (c : Bool) → (c || (leb a x && leb x a)) ≡ ((a == x) || c)
same_offset a x true = ground arith
same_offset a x false = ground arith

in_window : (a n : ℕ) → a < n → n ≤ 2 ^ 23 → leb 8388608 a ≡ false
in_window a n h small = ground arith

insert-Recorded :
    (start n p : ℕ) (ps : List ℕ) (w : SlidingWindow)
    → 0 < n
    → n ≤ 2 ^ 23
    → wrapping_sub p start < n
    → Within start n ps
    → Recorded start n ps w
    → Recorded start n (p ∷ ps) (insert p p w)
unfolding insert
insert-Recorded start n p ps w pos small b bs r = elim (Bool-cases (is_complete w)) [
  | inl c ↦ rw c (record {
    begins = r.begins;
    counts = r.counts;
    sorted = r.sorted;
    exact = λ x.
        r.exact x
        ∙ already start n p x ps b (sym (complete_has_all start n ps w pos small bs r) ∙ c);
  })
  | inr c ↦
      rw (c, r.begins, in_window (wrapping_sub p start) n b small)
        (record {
          begins = refl;
          counts = r.counts;
          sorted =
              insert_range-IsSorted (wrapping_sub p start) (wrapping_sub p start) w.intervals
                (omega arith) r.sorted;
          exact = λ x.
              insert_range-covers (wrapping_sub p start) (wrapping_sub p start) x w.intervals
                (omega arith) r.sorted (single-Reaches (wrapping_sub p start) w.intervals r.sorted)
              ∙ same_offset (wrapping_sub p start) x (covers x w.intervals)
              ∙ ap (λ t. (wrapping_sub p start == x) || t) (r.exact x);
        })
]

record_all-Recorded :
    (start n : ℕ) (ps : List ℕ)
    → 0 < n
    → n ≤ 2 ^ 23
    → Within start n ps
    → Recorded start n ps (record_all (new start n) ps)
unfolding new
record_all-Recorded start n [] pos small bs = record {
  begins = refl;
  counts = refl;
  sorted = tt;
  exact = λ x. refl;
}
record_all-Recorded start n (p ∷ ps) pos small (b, bs) =
    insert-Recorded start n p ps _ pos small b bs (record_all-Recorded start n ps pos small bs)

-- A window that the packets of a message are recorded in, one by one, in whatever order and however
-- often, is complete exactly when each of the message's packets is among them. The message has at
-- least one packet and at most 2 ^ 23, and may cross the end of the sequence numbers.
pub record_all-is_complete :
    (start n : ℕ) (ps : List ℕ)
    → 0 < n
    → n ≤ 2 ^ 23
    → Within start n ps
    → is_complete (record_all (new start n) ps) ≡ all_below n (λ x. arrived start x ps)
record_all-is_complete start n ps pos small bs =
    complete_has_all start n ps _ pos small bs (record_all-Recorded start n ps pos small bs)
