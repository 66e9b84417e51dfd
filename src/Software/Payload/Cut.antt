-- ===== src/Software/Payload/Cut.antt =====
-- What `cut` takes from a list of elements.
use dtld_rdma_driver.Base.{
  ℕ, zero, suc, ◌+◌, ◌-◌, ◌^◌, ◌≤◌, ◌<◌, ◌≡◌, refl, sym, ap, ◌∙◌, subst, inl, inr, true, false,
  some, List, [], ◌∷◌, ◌++◌, length, length-append, arith, leb, leb_iff, Bool-cases, add64, ==_iff,
}
use mathlib.Core.List.{append_assoc}
use dtld_rdma_driver.Device.Work.{DescSge}
use dtld_rdma_driver.Software.Payload.{
  PayloadInfo, no_payload, add, SgList, Cutting, cut_within, kept_before, cut_levels, cut_below,
  left_after, cut,
}
use dtld_rdma_driver.Software.Payload.Bytes.{
  range, range-split, length-range, bytes_of, bytes_of-add, sge_bytes,
}

-- The elements of the levels that are left do not reach the end of the address space, and those
-- after them are empty.
abbrev pub Within : ℕ → List DescSge → Type 0
Within levels [] = Unit
Within zero (sge ∷ rest) = (sge.len ≡ 0) × Within zero rest
Within (suc levels) (sge ∷ rest) = (sge.addr + sge.len < 2 ^ 64) × Within levels rest

-- The same where the first elements, which are empty, are behind the current level.
abbrev pub Ready : ℕ → ℕ → List DescSge → Type 0
Ready zero levels elements = Within levels elements
Ready (suc skipped) levels [] = Unit
Ready (suc skipped) levels (sge ∷ rest) = (sge.len ≡ 0) × Ready skipped levels rest

abbrev pub Usable : SgList → Type 0
Usable s = Ready s.cur_level (s.len - s.cur_level) s.elements

abbrev pub bytes_left : SgList → List ℕ
bytes_left s = sge_bytes s.elements

empty-bytes : (elements : List DescSge) → Within zero elements → sge_bytes elements ≡ []
empty-bytes [] h = refl
empty-bytes (sge ∷ rest) (e, h) = rw e (empty-bytes rest h)

-- What the loop makes of a payload and the elements from the current level on.
record Cut (levels taken : ℕ) (before left : List ℕ) (c : Cutting) : Type 0 where
  joined : bytes_of c.payload ++ sge_bytes c.elements ≡ before ++ left
  size : length (bytes_of c.payload) ≡ length before + taken
  kept : Within levels c.elements
  moved : c.emptied ≡ true → Ready (suc c.passed) (levels - suc c.passed) c.elements

cut_range :
    (a n taken : ℕ) (rest : List ℕ) (p : PayloadInfo)
    → a + n < 2 ^ 64
    → taken ≤ n
    → bytes_of (add a taken p) ++ (range (add64 a taken) (n - taken) ++ rest)
      ≡ bytes_of p ++ (range a n ++ rest)
cut_range a n taken rest p h le =
    ap (λ t. t ++ (range (add64 a taken) (n - taken) ++ rest)) (bytes_of-add a taken p)
    ∙ append_assoc (bytes_of p) (range a taken) _
    ∙ ap (λ t. bytes_of p ++ t)
        (sym (append_assoc (range a taken) (range (add64 a taken) (n - taken)) rest)
          ∙ ap (λ t. t ++ rest) (range-split a n taken h le))

length-bytes_of-add :
    (a n : ℕ) (p : PayloadInfo) → length (bytes_of (add a n p)) ≡ length (bytes_of p) + n
length-bytes_of-add a n p =
    ap length (bytes_of-add a n p)
    ∙ length-append (bytes_of p) (range a n)
    ∙ ap (λ (t : ℕ). length (bytes_of p) + t) (length-range a n)

not_leb : (a b : ℕ) → leb a b ≡ false → b < a
not_leb a b e = ground arith

length-sge_bytes :
    (sge : DescSge) (rest : List DescSge)
    → length (sge_bytes (sge ∷ rest)) ≡ sge.len + length (sge_bytes rest)
length-sge_bytes sge rest =
    length-append (range sge.addr sge.len) (sge_bytes rest)
    ∙ ap (λ (t : ℕ). t + length (sge_bytes rest)) (length-range sge.addr sge.len)

suc_minus : (n k : ℕ) → suc n - suc k ≡ n - k
suc_minus n k = omega arith

minus_zero : (n : ℕ) → n - 0 ≡ n
minus_zero n = omega arith

Ready-at :
    (a b m n : ℕ) (elements : List DescSge)
    → a ≡ b
    → m ≡ n
    → Ready a m elements
    → Ready b n elements
Ready-at a b m n elements e f r =
    subst (λ (t : ℕ). Ready t n elements) e (subst (λ (t : ℕ). Ready a t elements) f r)

zero_plus : (n : ℕ) → n ≡ 0 + n
zero_plus n = omega arith

suc_plus : (m n : ℕ) → suc (m + n) ≡ suc m + n
suc_plus m n = omega arith

cut_within-Cut :
    (levels taken : ℕ) (p : PayloadInfo) (sge : DescSge) (rest : List DescSge)
    → Within (suc levels) (sge ∷ rest)
    → taken ≤ sge.len
    → Cut (suc levels) taken (bytes_of p) (sge_bytes (sge ∷ rest)) (cut_within taken p sge rest)
cut_within-Cut levels taken p sge rest (fits, w) le = record {
  joined = cut_range sge.addr sge.len taken (sge_bytes rest) p fits le;
  size = length-bytes_of-add sge.addr taken p;
  kept = (omega (arith, fits, le), w);
  moved = λ e. ((==_iff (sge.len - taken) 0).0 e, rw (suc_minus levels 0, minus_zero levels) w);
}

kept_before-Cut :
    (levels taken : ℕ) (p : PayloadInfo) (sge : DescSge) (rest : List DescSge) (c : Cutting)
    → sge.addr + sge.len < 2 ^ 64
    → sge.len ≤ taken
    → Cut levels (taken - sge.len) (bytes_of (add sge.addr sge.len p)) (sge_bytes rest) c
    → Cut
        (suc levels)
        taken
        (bytes_of p)
        (sge_bytes (sge ∷ rest))
        (kept_before (record sge { len = 0 }) c)
kept_before-Cut levels taken p sge rest c fits le done = record {
  joined =
      done.joined
      ∙ ap (λ t. t ++ sge_bytes rest) (bytes_of-add sge.addr sge.len p)
      ∙ append_assoc (bytes_of p) (range sge.addr sge.len) (sge_bytes rest);
  size = done.size ∙ omega (arith, length-bytes_of-add sge.addr sge.len p, le);
  kept = (omega (arith, fits), done.kept);
  moved = λ e. (
    refl,
    Ready-at (suc c.passed) _ _ _ c.elements refl (sym (suc_minus levels (suc c.passed)))
        (done.moved e),
  );
}

cut_levels-Cut :
    (levels taken : ℕ) (p : PayloadInfo) (elements : List DescSge)
    → Within levels elements
    → 0 < taken
    → taken ≤ length (sge_bytes elements)
    → (c : Cutting) × (cut_levels levels taken p elements ≡ some c)
      × Cut levels taken (bytes_of p) (sge_bytes elements) c
unfolding cut_levels
cut_levels-Cut zero taken p elements w pos le =
    absurd (omega (arith, pos, le, ap length (empty-bytes elements w)))
cut_levels-Cut (suc levels) taken p [] w pos le = absurd (omega (arith, pos, le))
cut_levels-Cut (suc levels) taken p (sge ∷ rest) (fits, w) pos le =
    elim (Bool-cases (leb taken sge.len)) [
      | inl ends ↦ (
        cut_within taken p sge rest,
        rw ends refl,
        cut_within-Cut levels taken p sge rest (fits, w) ((leb_iff taken sge.len).0 ends),
      )
      | inr goes_on ↦
          let more : sge.len < taken = not_leb taken sge.len goes_on in
          let (c, e, done) =
            cut_levels-Cut levels (taken - sge.len) (add sge.addr sge.len p) rest w
              (omega (arith, more)) (omega (arith, le, length-sge_bytes sge rest, more)) in
          (
            kept_before (record sge { len = 0 }) c,
            rw (goes_on, e) refl,
            kept_before-Cut levels taken p sge rest c fits (omega (arith, more)) done,
          )
    ]

-- The same where the current level is not the first.
record CutBelow (skipped levels taken : ℕ) (left : List ℕ) (c : Cutting) : Type 0 where
  joined : bytes_of c.payload ++ sge_bytes c.elements ≡ left
  size : length (bytes_of c.payload) ≡ taken
  kept : Ready skipped levels c.elements
  moved : c.emptied ≡ true → Ready (skipped + suc c.passed) (levels - suc c.passed) c.elements

cut_below-Cut :
    (skipped levels taken : ℕ) (elements : List DescSge)
    → Ready skipped levels elements
    → 0 < taken
    → taken ≤ length (sge_bytes elements)
    → (c : Cutting) × (cut_below skipped levels taken elements ≡ some c)
      × CutBelow skipped levels taken (sge_bytes elements) c
unfolding cut_below
cut_below-Cut zero levels taken elements r pos le =
    let (c, e, done) = cut_levels-Cut levels taken no_payload elements r pos le in
    (
      c,
      e,
      record {
        joined = done.joined;
        size = done.size ∙ omega arith;
        kept = done.kept;
        moved = λ h. Ready-at _ _ _ _ c.elements (zero_plus (suc c.passed)) refl (done.moved h);
      },
    )
cut_below-Cut (suc skipped) levels taken [] r pos le = absurd (omega (arith, pos, le))
cut_below-Cut (suc skipped) levels taken (sge ∷ rest) (empty, r) pos le =
    let (c, e, done) = cut_below-Cut skipped levels taken rest r pos (rw empty at le) in
    (
      record c { elements = sge ∷ c.elements },
      rw e refl,
      record {
        joined = rw empty done.joined;
        size = done.size;
        kept = (empty, done.kept);
        moved = λ h.
            Ready-at _ _ _ _ (sge ∷ c.elements) (suc_plus skipped (suc c.passed)) refl
              (empty, done.moved h);
      },
    )

level_after : (m n : ℕ) → m + suc n ≡ m + n + 1
level_after m n = omega arith

levels_after : (l m n : ℕ) → l - m - suc n ≡ l - (m + n + 1)
levels_after l m n = omega arith

left_after-Usable :
    (s : SgList) (c : Cutting)
    → Ready s.cur_level (s.len - s.cur_level) c.elements
    → (c.emptied ≡ true
        → Ready (s.cur_level + suc c.passed) (s.len - s.cur_level - suc c.passed) c.elements)
    → Usable (left_after s c)
left_after-Usable s c kept moved = elim (Bool-cases c.emptied) [
  | inl emptied ↦ rw emptied (
      Ready-at _ _ _ _ c.elements (level_after s.cur_level c.passed)
        (levels_after s.len s.cur_level c.passed) (moved emptied))
  | inr holds ↦ rw holds kept
]

-- What `cut` gives of a list of elements that does not reach the end of the address space, where the list
-- has as many bytes as are asked for.
pub cut_lem :
    (taken : ℕ) (s : SgList)
    → Usable s
    → 0 < taken
    → taken ≤ length (bytes_left s)
    → (p : PayloadInfo) × (t : SgList) × (cut taken s ≡ some (p, t))
      × (bytes_of p ++ bytes_left t ≡ bytes_left s)
      × (length (bytes_of p) ≡ taken)
      × Usable t
unfolding cut
cut_lem taken s u pos le =
    let (c, e, done) = cut_below-Cut s.cur_level (s.len - s.cur_level) taken s.elements u pos le in
    (
      c.payload,
      left_after s c,
      rw (e, cut) refl,
      done.joined,
      done.size,
      left_after-Usable s c done.kept done.moved,
    )
