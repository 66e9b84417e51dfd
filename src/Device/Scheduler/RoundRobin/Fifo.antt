-- ===== src/Device/Scheduler/RoundRobin/Fifo.antt =====
-- Each queue pair's descriptors leave the round robin in the order in which they were pushed.
use dtld_rdma_driver.Base.{
  ℕ, zero, suc, ◌≡◌, ◌≢◌, ◌⊎◌, refl, sym, ap, ◌∙◌, inl, inr, some, List, [], ◌∷◌, ◌++◌, ◌==◌,
  if◌then◌else◌, ==_iff, ==_false, ==_of_ne, Bool-cases,
}
use mathlib.Core.List.{append_assoc, append-nil}
use dtld_rdma_driver.Device.Scheduler.RoundRobin.{push, put_back, pop_loop}
use dtld_rdma_driver.Device.Scheduler.RoundRobin.Valid.{Owned, Lacks, IsValid, put_back-IsValid}

module _ {ℓ} {A : Type ℓ} where
  -- All descriptors of the queue.
  abbrev pub contents : List (ℕ × List A) → List A
  contents [] = []
  contents ((_, list) ∷ queue) = list ++ contents queue

module _ {ℓ} {A : Type ℓ} (owner : A → ℕ) (n : ℕ) where
  -- Those of one queue pair, in order.
  abbrev pub of : List A → List A
  of [] = []
  of (d ∷ ds) = if owner d == n then d ∷ of ds else of ds

  pub of-append : (xs ys : List A) → of (xs ++ ys) ≡ of xs ++ of ys
  of-append [] ys = refl
  of-append (x ∷ xs) ys = elim (Bool-cases (owner x == n)) [
    | inl e ↦ rw e (ap (λ l. x ∷ l) (of-append xs ys))
    | inr e ↦ rw e (of-append xs ys)
  ]

  of-Owned : (q : ℕ) (list : List A) → q ≢ n → Owned owner q list → of list ≡ []
  of-Owned q [] h o = refl
  of-Owned q (d ∷ list) h (o, os) = rw (ap (λ t. t == n) o, ==_of_ne q n h) (of-Owned q list h os)

  of-Lacks :
      (queue : List (ℕ × List A))
      → IsValid owner queue
      → Lacks owner n queue
      → of (contents queue) ≡ []
  of-Lacks [] v l = refl
  of-Lacks ((q, list) ∷ queue) (f, o, m, v) (h, l) =
      of-append list (contents queue) ∙ rw (of-Owned q list h o) (of-Lacks queue v l)

  -- Two parts of which one has nothing for the queue pair may be exchanged.
  swap : (xs ys : List A) → (of xs ≡ []) ⊎ (of ys ≡ []) → of (xs ++ ys) ≡ of (ys ++ xs)
  swap xs ys h = of-append xs ys ∙ split h ∙ sym (of-append ys xs)
    where
      split : (of xs ≡ []) ⊎ (of ys ≡ []) → of xs ++ of ys ≡ of ys ++ of xs
      split (inl e) = rw e (sym (append-nil (of ys)))
      split (inr e) = rw e (append-nil (of xs))

  apart :
      (q : ℕ) (list : List A) (queue : List (ℕ × List A))
      → Owned owner q list
      → Lacks owner q queue
      → IsValid owner queue
      → (of list ≡ []) ⊎ (of (contents queue) ≡ [])
  apart q list queue o l v = elim (Bool-cases (q == n)) [
    | inl e ↦ inr (of-Lacks queue v (rw (sym ((==_iff q n).0 e)) l))
    | inr e ↦ inl (of-Owned q list (==_false q n e) o)
  ]

  contents-snoc :
      (queue : List (ℕ × List A)) (q : ℕ) (list : List A)
      → contents (queue ++ (q, list) ∷ []) ≡ contents queue ++ list
  contents-snoc [] q list = append-nil list
  contents-snoc ((p, l) ∷ queue) q list =
      ap (λ t. l ++ t) (contents-snoc queue q list) ∙ sym (append_assoc l (contents queue) list)

  put_back-of :
      (q : ℕ) (list : List A) (queue : List (ℕ × List A))
      → Owned owner q list
      → Lacks owner q queue
      → IsValid owner queue
      → of (contents (put_back q list queue)) ≡ of (list ++ contents queue)
  unfolding put_back
  put_back-of q [] queue o l v = refl
  put_back-of q (d ∷ list) queue o l v =
      ap of (contents-snoc queue q (d ∷ list))
      ∙ sym (swap (d ∷ list) (contents queue) (apart q (d ∷ list) queue o l v))

  regroup : (xs ys zs : List A) → of xs ++ (of ys ++ of zs) ≡ of (xs ++ ys) ++ of zs
  regroup xs ys zs =
      sym (append_assoc (of xs) (of ys) (of zs)) ∙ ap (λ t. t ++ of zs) (sym (of-append xs ys))

  joined :
      (q qpn : ℕ) (list desc : List A) (queue : List (ℕ × List A))
      → q ≡ qpn
      → Owned owner qpn desc
      → Lacks owner q queue
      → IsValid owner queue
      → of ((list ++ desc) ++ contents queue) ≡ of (list ++ contents queue) ++ of desc
  joined q qpn list desc queue e o l v =
      ap of (append_assoc list desc (contents queue))
      ∙ of-append list (desc ++ contents queue)
      ∙ ap (λ t. of list ++ t)
          (swap desc (contents queue) (apart q desc queue (rw e o) l v)
            ∙ of-append (contents queue) desc)
      ∙ regroup list (contents queue) desc

  pub push-of :
      (qpn : ℕ) (desc : List A) (queue : List (ℕ × List A))
      → Owned owner qpn desc
      → IsValid owner queue
      → of (contents (push qpn desc queue)) ≡ of (contents queue) ++ of desc
  unfolding push
  push-of qpn desc [] o v = ap of (append-nil desc)
  push-of qpn desc ((q, list) ∷ queue) o (f, p, l, v) = elim (Bool-cases (q == qpn)) [
    | inl e ↦ rw e (joined q qpn list desc queue ((==_iff q qpn).0 e) o l v)
    | inr e ↦ rw e (
        of-append list (contents (push qpn desc queue))
        ∙ ap (λ t. of list ++ t) (push-of qpn desc queue o v)
        ∙ regroup list (contents queue) desc)
  ]

  taken :
      (d : A) (ds rest : List A) (left : List (ℕ × List A))
      → of ds ++ of (contents left) ≡ of rest
      → of (d ∷ ds) ++ of (contents left) ≡ of (d ∷ rest)
  taken d ds rest left k = elim (Bool-cases (owner d == n)) [
    | inl e ↦ rw e (ap (λ t. d ∷ t) k)
    | inr e ↦ rw e k
  ]

  -- A batch is taken from the front of each queue pair's descriptors.
  pub pop_loop-of :
      (free : ℕ) (queue : List (ℕ × List A))
      → IsValid owner queue
      → (ds : List A) × (left : List (ℕ × List A)) × (pop_loop free queue ≡ some (ds, left))
        × IsValid owner left
        × (of ds ++ of (contents left) ≡ of (contents queue))
  unfolding pop_loop
  pop_loop-of zero queue v = ([], queue, refl, v, refl)
  pop_loop-of (suc free) [] v = ([], [], refl, v, refl)
  pop_loop-of (suc free) ((q, []) ∷ queue) (f, _, _, _) = absurd (cc)
  pop_loop-of (suc free) ((q, d ∷ list) ∷ queue) (_, (o, os), l, v) =
      let (ds, left, e, v', k) =
        pop_loop-of free (put_back q list queue) (put_back-IsValid owner q list queue os l v) in
      (
        d ∷ ds,
        left,
        rw e refl,
        v',
        taken d ds (list ++ contents queue) left (k ∙ put_back-of q list queue os l v),
      )
