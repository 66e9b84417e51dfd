-- ===== src/Retry/Timeout.antt =====
-- What a check of the timeouts does to an entry.
use dtld_rdma_driver.Base.{
  ℕ, ◌+◌, ◌-◌, ◌≡◌, refl, ap, inl, inr, Bool, true, false, not, ◌||◌, ◌&&◌, List, [], ◌∷◌, ◌++◌,
  leb, ◌==◌, Bool-cases, arith, if◌then◌else◌,
}
use dtld_rdma_driver.Retry.{
  Key, RetryContext, RetryMap, is_due, check_entry, check_entries, clean_exceed_timeout,
  check_timeout, Effect, set_error, send_work_desc,
}
use dtld_rdma_driver.Device.Work.{ToCardWorkRbDesc}

-- Whether a check gives an entry up.
abbrev gives_up : ℕ → List (Key × RetryContext) → Bool
gives_up now [] = false
gives_up now ((_, ctx) ∷ rest) = (is_due now ctx && leb ctx.retry_counter 0) || gives_up now rest

check_entry-gives_up :
    (now t : ℕ) (key : Key) (ctx : RetryContext)
    → (check_entry now t key ctx).1.1 ≡ (is_due now ctx && leb ctx.retry_counter 0)
unfolding check_entry
check_entry-gives_up now t key ctx = ground arith

check_entries-gives_up :
    (now t : ℕ) (entries : List (Key × RetryContext))
    → (check_entries now t entries).1.1 ≡ gives_up now entries
unfolding check_entries
check_entries-gives_up now t [] = refl
check_entries-gives_up now t ((key, ctx) ∷ rest) =
    rw (check_entry-gives_up now t key ctx, check_entries-gives_up now t rest) refl

-- The users that are told of an error, and the requests that are sent again.
abbrev pub told : List Effect → List Key
told [] = []
told (set_error key ∷ es) = key ∷ told es
told (send_work_desc key desc ∷ es) = told es

abbrev pub resent : List Effect → List (Key × ToCardWorkRbDesc)
resent [] = []
resent (set_error key ∷ es) = resent es
resent (send_work_desc key desc ∷ es) = (key, desc) ∷ resent es

-- An entry is due when it is one of the requests that are sent again by the clock, and its time has
-- come. The keys of the entries that are due and have no retry left:
abbrev pub exceeded : ℕ → List (Key × RetryContext) → List Key
exceeded now [] = []
exceeded now ((key, ctx) ∷ rest) =
    let later = exceeded now rest in
    if ctx.is_initiative && leb ctx.next_timeout now && ctx.retry_counter == 0
    then key ∷ later
    else later

-- The requests that are due and have a retry left.
abbrev pub due_again : ℕ → List (Key × RetryContext) → List (Key × ToCardWorkRbDesc)
due_again now [] = []
due_again now ((key, ctx) ∷ rest) =
    let later = due_again now rest in
    if ctx.is_initiative && leb ctx.next_timeout now && not (ctx.retry_counter == 0)
    then (key, ctx.descriptor) ∷ later
    else later

-- The entries that a check leaves when it gives one up. One that is due needs two retries, of which
-- it loses one; one that is not due needs one, and stays as it is.
abbrev pub survivors : ℕ → ℕ → List (Key × RetryContext) → List (Key × RetryContext)
survivors now t [] = []
survivors now t ((key, ctx) ∷ rest) =
    let later = survivors now t rest in
    if ctx.is_initiative && leb ctx.next_timeout now
    then if leb 2 ctx.retry_counter
      then (key, record ctx { retry_counter = ctx.retry_counter - 1; next_timeout = now + t })
        ∷ later
      else later
    else if ctx.retry_counter == 0
    then later
    else (key, ctx) ∷ later

-- The entries that a check leaves when it gives none up: each stays, and one that is due has a retry
-- less.
abbrev pub retried : ℕ → ℕ → List (Key × RetryContext) → List (Key × RetryContext)
retried now t [] = []
retried now t ((key, ctx) ∷ rest) =
    let later = retried now t rest in
    if ctx.is_initiative && leb ctx.next_timeout now
    then (key, record ctx { retry_counter = ctx.retry_counter - 1; next_timeout = now + t }) ∷ later
    else (key, ctx) ∷ later

abbrev pub remaining : List Key → ℕ → ℕ → List (Key × RetryContext) → List (Key × RetryContext)
remaining [] now t entries = retried now t entries
remaining (_ ∷ _) now t entries = survivors now t entries

told-append : (es es' : List Effect) → told (es ++ es') ≡ told es ++ told es'
told-append [] es' = refl
told-append (set_error key ∷ es) es' = ap (λ l. key ∷ l) (told-append es es')
told-append (send_work_desc key desc ∷ es) es' = told-append es es'

resent-append : (es es' : List Effect) → resent (es ++ es') ≡ resent es ++ resent es'
resent-append [] es' = refl
resent-append (set_error key ∷ es) es' = resent-append es es'
resent-append (send_work_desc key desc ∷ es) es' = ap (λ l. (key, desc) ∷ l) (resent-append es es')

-- What a check asks for, and what it leaves when it gives an entry up.
abbrev Checked :
    ℕ → ℕ → List (Key × RetryContext) → List (Key × RetryContext) × List Effect → Type 0
Checked now t entries (left, es) =
    (told es ≡ exceeded now entries)
    × (resent es ≡ due_again now entries)
    × (clean_exceed_timeout left ≡ survivors now t entries)

check_entries-Checked :
    (now t : ℕ) (entries : List (Key × RetryContext))
    → let (left, (es, _)) = check_entries now t entries in Checked now t entries (left, es)
unfolding check_entries clean_exceed_timeout check_entry
check_entries-Checked now t [] = (refl, refl, refl)
check_entries-Checked now t ((key, ctx) ∷ rest) =
    let (a, b, c) = check_entries-Checked now t rest in
    let es = (check_entries now t rest).1.0 in
    let (one, (es0, _)) = check_entry now t key ctx in
    ground (arith, a, b, c, told-append es0 es, resent-append es0 es)

none_given_up :
    (now t : ℕ) (entries : List (Key × RetryContext))
    → gives_up now entries ≡ false
    → (exceeded now entries ≡ []) × ((check_entries now t entries).0 ≡ retried now t entries)
unfolding check_entries check_entry
none_given_up now t [] h = (refl, refl)
none_given_up now t ((key, ctx) ∷ rest) h =
    let (a, b) = none_given_up now t rest (ground arith) in ground (arith, a, b, h)

one_given_up :
    (now : ℕ) (entries : List (Key × RetryContext))
    → gives_up now entries ≡ true
    → (key : Key) × (keys : List Key) × (exceeded now entries ≡ key ∷ keys)
one_given_up now [] h = absurd (cc)
one_given_up now ((key, ctx) ∷ rest) h =
    elim (Bool-cases (is_due now ctx && leb ctx.retry_counter 0)) [
      | inl e ↦ (key, exceeded now rest, ground arith)
      | inr e ↦ let (k, ks, later) = one_given_up now rest (ground arith) in (k, ks, ground arith)
    ]

-- What a check of the timeouts does, for every map and at every time. The users that are told of an
-- error are those of the entries that are due and have no retry left, in order; what is sent again
-- are the requests that are due and have one. When nobody is told, all entries stay, and those sent
-- have a retry less. When anybody is told, also every other entry that is left without a retry goes:
-- that which was not due, and that whose last retry the same check has just sent; the users of these
-- are not told.
pub check_timeout-remaining :
    (now retry_timeout : ℕ) (m : RetryMap)
    → let (m', es) = check_timeout now retry_timeout m in
      (told es ≡ exceeded now m.entries)
      × (resent es ≡ due_again now m.entries)
      × (m' ≡ record m { entries = remaining (exceeded now m.entries) now retry_timeout m.entries })
unfolding check_timeout
check_timeout-remaining now t m =
    let (a, b, c) = check_entries-Checked now t m.entries in
    (
      a,
      b,
      elim (Bool-cases (gives_up now m.entries)) [
        | inl h ↦
            let (key, keys, e) = one_given_up now m.entries h in
            rw (e, check_entries-gives_up now t m.entries, h, c) refl
        | inr h ↦
            let (e, left) = none_given_up now t m.entries h in
            rw (e, check_entries-gives_up now t m.entries, h, left) refl
      ],
    )
