-- ===== src/Ringbuf/Channel/Window.antt =====
-- What a ring holds: the descriptors of the slots from the tail on.
use dtld_rdma_driver.Base.{
  ℕ, zero, suc, ◌+◌, ◌*◌, ◌%◌, ◌<◌, ◌≡◌, ◌≢◌, refl, sym, subst, ap, ap₂, ◌∙◌, List, [], ◌∷◌, ◌++◌,
  length, arith,
}
use native.Mathlib.Nat.{mod-add-mod}
use dtld_rdma_driver.Ringbuf.Channel.{update}

module _ (depth elem_size : ℕ) where
  shifted :
      (t n a : ℕ)
      → ((j : ℕ) → j < suc n → (t + j) % depth * elem_size ≢ a)
      → (j : ℕ) → j < n
      → (t + 1 + j) % depth * elem_size ≢ a
  shifted t n a h j hj =
      subst (λ (i : ℕ). i % depth * elem_size ≢ a) (omega arith) (h (suc j) (omega arith))

  first :
      (t n a : ℕ)
      → ((j : ℕ) → j < suc n → (t + j) % depth * elem_size ≢ a)
      → t % depth * elem_size ≢ a
  first t n a h = subst (λ (i : ℕ). i % depth * elem_size ≢ a) (omega arith) (h 0 (omega arith))

module _ {ℓ} {D : Type ℓ} (depth elem_size : ℕ) where
  abbrev pub window : (ℕ → D) → ℕ → ℕ → List D
  window mem t zero = []
  window mem t (suc n) = mem (t % depth * elem_size) ∷ window mem (t + 1) n

  pub length-window : (mem : ℕ → D) (t n : ℕ) → length (window mem t n) ≡ n
  length-window mem t zero = refl
  length-window mem t (suc n) = ap suc (length-window mem (t + 1) n)

  -- Only the slots of the indices matter.
  pub window-mod :
      (mem : ℕ → D) (t u n : ℕ) → t % depth ≡ u % depth → window mem t n ≡ window mem u n
  window-mod mem t u zero e = refl
  window-mod mem t u (suc n) e = ap₂ ◌∷◌ (ap (λ (i : ℕ). mem (i * elem_size)) e) (
      window-mod mem (t + 1) (u + 1) n
        (sym (mod-add-mod t depth 1) ∙ ap (λ (i : ℕ). (i + 1) % depth) e ∙ mod-add-mod u depth 1))

  update_ne : (mem : ℕ → D) (a b : ℕ) (x : D) → b ≢ a → update mem a x b ≡ mem b
  update_ne mem a b x ne = ground arith

  update_self : (mem : ℕ → D) (a b : ℕ) (x : D) → b ≡ a → update mem a x b ≡ x
  update_self mem a b x e = ground arith

  -- A write to the slot after the window, which is none of its slots, extends it.
  pub window-push :
      (mem : ℕ → D) (t n a : ℕ) (x : D)
      → a ≡ (t + n) % depth * elem_size
      → ((j : ℕ) → j < n → (t + j) % depth * elem_size ≢ a)
      → window (update mem a x) t (suc n) ≡ window mem t n ++ (x ∷ [])
  window-push mem t zero a x e h =
      ap (λ y. y ∷ [])
        (update_self mem a (t % depth * elem_size) x
          (ap (λ (i : ℕ). i % depth * elem_size) (omega arith) ∙ sym e))
  window-push mem t (suc n) a x e h =
      ap₂ ◌∷◌ (update_ne mem a (t % depth * elem_size) x (first depth elem_size t n a h)) (
        window-push mem (t + 1) n a x (e ∙ ap (λ (i : ℕ). i % depth * elem_size) (omega arith))
          (shifted depth elem_size t n a h))
