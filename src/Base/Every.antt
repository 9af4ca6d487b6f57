-- ===== src/Base/Every.antt =====
-- A predicate on every element of a list.
use mathlib.Core.List.{List, [], ◌∷◌, ◌++◌}

module _ {ℓ κ} {A : Type ℓ} where
  unfoldable pub Every : (A → Type κ) → List A → Type κ
  Every P [] = Unit
  Every P (x ∷ xs) = P x × Every P xs

  pub Every-append :
      (P : A → Type κ) (xs ys : List A) → Every P xs → Every P ys → Every P (xs ++ ys)
  unfolding Every
  Every-append P [] ys h k = k
  Every-append P (x ∷ xs) ys h k = (h.0, Every-append P xs ys h.1 k)

module _ {ℓ κ μ} {A : Type ℓ} where
  pub Every-map :
      (P : A → Type κ) (Q : A → Type μ) (xs : List A)
      → ((x : A) → P x → Q x)
      → Every P xs
      → Every Q xs
  unfolding Every
  Every-map P Q [] f h = tt
  Every-map P Q (x ∷ xs) f h = (f x h.0, Every-map P Q xs f h.1)
