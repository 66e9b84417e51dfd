-- ===== src/Checker/Contexts/Lookup.antt =====
-- What is found in an association list after an entry is put into it.
use dtld_rdma_driver.Base.{
  ℕ, ◌≡◌, ◌≢◌, refl, sym, ◌∙◌, inl, inr, Option, some, none, ap, List, [], ◌∷◌, Bool-cases, ◌==◌,
  ==_iff, ==_refl, ==_of_ne,
}
use dtld_rdma_driver.Checker.Contexts.{
  lookup, put, delete, RecvContext, PerQpContextMap, RecvContextMap, RecentQpMsnStatus, processing,
  new, or_insert, set_recent_msn_status, insert_ctx, remove_ctx, set_status, get_ctx,
}

pub lookup-put {ℓ} : {A : Type ℓ} (k : ℕ) (v : A) (m : List (ℕ × A)) → lookup k (put k v m) ≡ some v
unfolding lookup put
lookup-put k v [] = rw (==_refl k) refl
lookup-put k v ((j, a) ∷ rest) = elim (Bool-cases (j == k)) [
  | inl e ↦ rw (e, ==_refl k) refl
  | inr e ↦ rw (e, e) (lookup-put k v rest)
]

pub lookup-put_ne {ℓ} :
    {A : Type ℓ} (i k : ℕ) (v : A) (m : List (ℕ × A)) → i ≢ k → lookup i (put k v m) ≡ lookup i m
unfolding lookup put
lookup-put_ne i k v [] h = rw (==_of_ne k i (λ e. h (sym e))) refl
lookup-put_ne i k v ((j, a) ∷ rest) h = elim (Bool-cases (j == k)) [
  | inl e ↦
      rw (e, ==_of_ne j i (λ f. h (sym f ∙ (==_iff j k).0 e)), ==_of_ne k i (λ f. h (sym f))) refl
  | inr e ↦ rw (e, lookup-put_ne i k v rest h) refl
]

lookup-delete {ℓ} : {A : Type ℓ} (k : ℕ) (m : List (ℕ × A)) → lookup k (delete k m) ≡ none
unfolding lookup delete
lookup-delete k [] = refl
lookup-delete k ((j, a) ∷ rest) = elim (Bool-cases (j == k)) [
  | inl e ↦ rw e (lookup-delete k rest)
  | inr e ↦ rw (e, e) (lookup-delete k rest)
]

get_ctx-put :
    (qpn msn : ℕ) (v : PerQpContextMap) (m : RecvContextMap)
    → get_ctx qpn msn (put qpn v m) ≡ lookup msn v.messages
unfolding get_ctx
get_ctx-put qpn msn v m = rw (lookup-put qpn v m, get_ctx) refl

messages-begun :
    (o : Option RecvContext) (msn : ℕ) (v : PerQpContextMap)
    → (elim o as (λ _. PerQpContextMap) [
      | some _ ↦ v
      | none ↦ set_recent_msn_status msn processing v
    ]).messages
      ≡ v.messages
unfolding set_recent_msn_status
messages-begun none msn v = refl
messages-begun (some _) msn v = refl

pub get_ctx-insert_ctx :
    (qpn msn : ℕ) (ctx : RecvContext) (m : RecvContextMap)
    → get_ctx qpn msn (insert_ctx qpn msn ctx m) ≡ some ctx
unfolding insert_ctx
get_ctx-insert_ctx qpn msn ctx m =
    let per_qp : PerQpContextMap = or_insert qpn (new 0) (lookup qpn m) in
    get_ctx-put qpn msn _ m
    ∙ ap (lookup msn) (
        messages-begun (lookup msn per_qp.messages) msn
          (record per_qp { messages = put msn ctx per_qp.messages }))
    ∙ lookup-put msn ctx per_qp.messages

remove_found :
    (qpn msn : ℕ) (m : RecvContextMap) (o : Option PerQpContextMap)
    → lookup qpn m ≡ o
    → get_ctx qpn msn (remove_ctx qpn msn m) ≡ none
unfolding remove_ctx get_ctx set_recent_msn_status
remove_found qpn msn m none e = rw (e, e, get_ctx, remove_ctx) refl
remove_found qpn msn m (some v) e =
    rw (e, remove_ctx) (get_ctx-put qpn msn _ m ∙ lookup-delete msn v.messages)

pub get_ctx-remove_ctx :
    (qpn msn : ℕ) (m : RecvContextMap) → get_ctx qpn msn (remove_ctx qpn msn m) ≡ none
get_ctx-remove_ctx qpn msn m = remove_found qpn msn m (lookup qpn m) refl

get_ctx-found :
    (qpn msn : ℕ) (v : PerQpContextMap) (m : RecvContextMap)
    → lookup qpn m ≡ some v
    → get_ctx qpn msn m ≡ lookup msn v.messages
unfolding get_ctx
get_ctx-found qpn msn v m e = rw (e, get_ctx) refl

set_found :
    (qpn msn : ℕ) (status : RecentQpMsnStatus) (m : RecvContextMap) (o : Option PerQpContextMap)
    → lookup qpn m ≡ o
    → get_ctx qpn msn (set_status qpn msn status m) ≡ get_ctx qpn msn m
unfolding set_status get_ctx set_recent_msn_status
set_found qpn msn status m none e = rw (e, set_status) refl
set_found qpn msn status m (some v) e =
    rw (e, set_status) (get_ctx-put qpn msn _ m ∙ sym (get_ctx-found qpn msn v m e))

pub get_ctx-set_status :
    (qpn msn : ℕ) (status : RecentQpMsnStatus) (m : RecvContextMap)
    → get_ctx qpn msn (set_status qpn msn status m) ≡ get_ctx qpn msn m
get_ctx-set_status qpn msn status m = set_found qpn msn status m (lookup qpn m) refl
