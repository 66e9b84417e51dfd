-- ===== src/OpCtx/Waiting.antt =====
-- A thread that waits is woken, and finds a result.
use dtld_rdma_driver.Base.{
  ℕ, ◌-◌, ◌<◌, ◌≡◌, ◌≢◌, ◌⊎◌, refl, sym, subst, ◌∙◌, inl, inr, Bool, true, false, Option, some,
  none, List, [], ◌∷◌, All, arith, Bool-cases, ◌==◌, ==_refl, ltb, ltb_iff,
}
use dtld_rdma_driver.OpCtx.{
  OpCtx, CtxStatus, running, finished, failed, is_running, new_running, is_set, wait, set_error,
  set_payload, set_finished, get_result,
}
use dtld_rdma_driver.OpCtx.Steps.{
  Phase, outside, parking, returned, Event, begins_wait, parks, wakes_without_cause, sets_payload,
  sets_finished, sets_error, World, start, at_thread, unpark, phase_after, begin_wait, park, wake,
  publish, step, run,
}

abbrev pub OnlyWaiter : {P : Type 0} → ℕ → Event P → Type 0
OnlyWaiter t (begins_wait u) = u ≡ t
OnlyWaiter t (parks _) = Unit
OnlyWaiter t (wakes_without_cause _) = Unit
OnlyWaiter t (sets_payload _) = Unit
OnlyWaiter t sets_finished = Unit
OnlyWaiter t (sets_error _) = Unit

at_self {ℓ} : {A : Type ℓ} (t : ℕ) (v : A) (f : ℕ → A) → at_thread t v f t ≡ v
at_self t v f = rw (==_refl t) refl

outside_ne_parking : outside ≢ parking
outside_ne_parking e = absurd (cc)

running_ne_finished : running ≢ finished
running_ne_finished e = absurd (cc)

true_ne_false : true ≢ false
true_ne_false e = absurd (cc)

failed_ne_finished : (cause : ℕ) → failed cause ≢ finished
failed_ne_finished cause e = absurd (cc)

returned_ne_parking : returned ≢ parking
returned_ne_parking e = absurd (cc)

-- Who stands in the context is woken, and nobody loses a token.
woken :
    (t : ℕ) (thread : Option ℕ) (token : ℕ → Bool) {b : Bool}
    → ((b ≡ true) × (thread ≡ some t)) ⊎ (token t ≡ true)
    → unpark thread token t ≡ true
woken t none token (inl (_, e)) = absurd (cc)
woken t none token (inr h) = h
woken t (some u) token (inl (_, e)) =
    subst (λ (o : Option ℕ). unpark o token t ≡ true) (sym e) (at_self t true token)
woken t (some u) token (inr h) = elim (Bool-cases (u == t)) [ inl e ↦ rw e refl | inr e ↦ rw e h ]

module _ {P H : Type 0} (t : ℕ) where
  abbrev pub HasResult : OpCtx P H → Type 0
  HasResult c = (r : P) × (c.payload ≡ some r)

  -- A thread between the lock and `park` stands in the context of a running operation, or has been
  -- woken.
  abbrev Registered : World P H → Type 0
  Registered w = ((is_running w.ctx.status ≡ true) × (w.ctx.thread ≡ some t)) ⊎ (w.token t ≡ true)

  record IsValid (w : World P H) : Type 0 where
    waiting : w.phase t ≡ parking → Registered w
    result : w.ctx.status ≡ finished → HasResult w.ctx
    published : 0 < w.pending → HasResult w.ctx

  -- Another thread, or the end of the wait.
  left-IsValid :
      (u : ℕ) (token : ℕ → Bool) (w : World P H)
      → ((u == t) ≡ false → w.token t ≡ true → token t ≡ true)
      → IsValid w
      → IsValid (record w { phase = at_thread u returned w.phase; token = token })
  left-IsValid u token w h v = record {
    waiting = elim (Bool-cases (u == t)) [
      | inl e ↦ rw e (λ f. absurd (returned_ne_parking f))
      | inr e ↦ rw e (λ f. elim (v.waiting f) [ inl stands ↦ inl stands | inr has ↦ inr (h e has) ])
    ];
    result = v.result;
    published = v.published;
  }

  park-IsValid :
      (p : Phase) (has : Bool) (u : ℕ) (w : World P H) → IsValid w → IsValid (park p has u w)
  park-IsValid parking true u w v =
      left-IsValid u (at_thread u false w.token) w (λ e has. rw e has) v
  park-IsValid parking false u w v = v
  park-IsValid outside has u w v = v
  park-IsValid returned has u w v = v

  wake-IsValid : (p : Phase) (u : ℕ) (w : World P H) → IsValid w → IsValid (wake p u w)
  wake-IsValid parking u w v = left-IsValid u w.token w (λ e has. has) v
  wake-IsValid outside u w v = v
  wake-IsValid returned u w v = v

  publish-IsValid : (r : P) (w : World P H) → IsValid w → IsValid (publish (set_payload r w.ctx) w)
  unfolding set_payload
  publish-IsValid r w v = elim (Bool-cases (is_set w.ctx.payload)) [
    | inr unset ↦
        rw unset
          (record { waiting = v.waiting; result = λ _. (r, refl); published = λ _. (r, refl) })
    | inl e ↦ rw e v
  ]

  -- A call that ends the operation and wakes the thread that waits.
  ended-IsValid :
      (status : CtxStatus) (pending : ℕ) (w : World P H)
      → (status ≡ finished → HasResult w.ctx)
      → (0 < pending → 0 < w.pending)
      → IsValid w
      → IsValid (record w {
        ctx = record w.ctx { status = status; thread = none };
        token = unpark w.ctx.thread w.token;
        pending = pending;
      })
  ended-IsValid status pending w h k v = record {
    waiting = λ e. inr (woken t w.ctx.thread w.token (v.waiting e));
    result = h;
    published = λ p. v.published (k p);
  }

  started-IsValid :
      (w : World P H)
      → IsValid w
      → let (to_park, c) = wait t w.ctx in
        IsValid (record w { ctx = c; phase = at_thread t (phase_after to_park) w.phase })
  unfolding wait
  started-IsValid w v = elim (Bool-cases (is_running w.ctx.status)) [
    | inl runs ↦
        rw runs
          (record { waiting = λ _. inl (runs, refl); result = v.result; published = v.published })
    | inr over ↦ rw over (record {
      waiting = λ e. absurd (returned_ne_parking (sym (at_self t returned w.phase) ∙ e));
      result = v.result;
      published = v.published;
    })
  ]

  begin_wait-IsValid : (p : Phase) (w : World P H) → IsValid w → IsValid (begin_wait p t w)
  begin_wait-IsValid parking w v = v
  begin_wait-IsValid outside w v = started-IsValid w v
  begin_wait-IsValid returned w v = started-IsValid w v

  step-IsValid : (e : Event P) (w : World P H) → OnlyWaiter t e → IsValid w → IsValid (step e w)
  unfolding step set_finished set_error
  step-IsValid (begins_wait u) w only v =
      subst (λ u. IsValid (step (begins_wait u) w)) (sym only) (begin_wait-IsValid (w.phase t) w v)
  step-IsValid (parks u) w only v = park-IsValid (w.phase u) (w.token u) u w v
  step-IsValid (wakes_without_cause u) w only v = wake-IsValid (w.phase u) u w v
  step-IsValid (sets_payload r) w only v = publish-IsValid r w v
  step-IsValid sets_finished w only v = elim (Bool-cases (ltb 0 w.pending)) [
    | inl some_pending ↦
        let p = (ltb_iff 0 w.pending).0 some_pending in
        rw some_pending (ended-IsValid finished (w.pending - 1) w (λ _. v.published p) (λ _. p) v)
    | inr none_pending ↦ rw none_pending v
  ]
  step-IsValid (sets_error cause) w only v =
      ended-IsValid (failed cause) w.pending w (λ e. absurd (failed_ne_finished cause e)) (λ p. p) v

  run-IsValid :
      (es : List (Event P)) (w : World P H) → All (OnlyWaiter t) es → IsValid w → IsValid (run es w)
  run-IsValid [] w only v = v
  run-IsValid (e ∷ es) w (o, only) v = run-IsValid es (step e w) only (step-IsValid e w o v)

  start-IsValid : IsValid start
  unfolding new_running
  start-IsValid = record {
    waiting = λ e. absurd (outside_ne_parking e);
    result = λ e. absurd (running_ne_finished e);
    published = λ p. absurd (omega (arith, p));
  }

  parked :
      (w : World P H)
      → w.phase t ≡ parking
      → w.token t ≡ true
      → (step (parks t) w).phase t ≡ returned
  unfolding step
  parked w e f = rw (e, f) (at_self t returned w.phase)

-- Whatever happens to a context in whatever order, as long as `t` is the only thread that waits for it:
-- once the operation is no longer running, `t` does not stay in `park` if it is in `wait`, but
-- returns with the next step it takes; and if the operation has finished, its result is there.
pub run-returned :
    {P : Type 0} (H : Type 0) (t : ℕ) (es : List (Event P))
    → All (OnlyWaiter t) es
    → let w : World P H = run es start in
      is_running w.ctx.status ≡ false
      → w.phase t ≡ parking
      → ((step (parks t) w).phase t ≡ returned)
        × (w.ctx.status ≡ finished → (r : P) × (get_result w.ctx ≡ some r))
unfolding get_result
run-returned H t es only over waits =
    let v = run-IsValid t es start only (start-IsValid t) in
    let w : World _ H = run es start in
    (
      parked t w waits (elim (v.waiting waits) [
        | inl (runs, _) ↦ absurd (true_ne_false (sym runs ∙ over))
        | inr has ↦ has
      ]),
      v.result,
    )
