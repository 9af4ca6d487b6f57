-- ===== src/Base/Database.antt =====
-- A database table with a primary key, as the rows in the order of their row ids. A delete
-- removes the row of a key; INSERT OR REPLACE removes it and appends the new row behind all others.
use Prim.Native.Nat.{◌+◌}
use mathlib.Core.Path.{◌≡◌, refl}
use mathlib.Core.Logic.{inl, inr}
use mathlib.Core.Bool.{Bool, true, false}
use mathlib.Core.Option
use mathlib.Core.Option.{Option, none, some}
use mathlib.Core.List.{List, [], ◌∷◌, ◌++◌}
use native.Mathlib.Omega.{arith}
use bitchchain.Base.Tests.{if◌then◌else◌, Eq, Bool-cases}
use bitchchain.Base.Lists.{length}

abbrev pub Table {ℓ κ} : Type ℓ → Type κ → Type (ℓ ⊔ κ)
Table K V = List (K × V)

pub beq_refl {ℓ} : {K : Type ℓ} ⦃e : Eq K⦄ (k : K) → e.beq k k ≡ true
beq_refl ⦃e⦄ k = (e.beq_iff k k).1 refl

module _ {ℓ κ} {K : Type ℓ} {V : Type κ} ⦃e : Eq K⦄ where
  -- SELECT … WHERE key = k, fetchone()
  abbrev pub select : K → Table K V → Option V
  select k [] = none
  select k ((j, v) ∷ t) = if e.beq j k then some v else select k t

  -- DELETE … WHERE key = k
  abbrev pub delete : K → Table K V → Table K V
  delete k [] = []
  delete k ((j, v) ∷ t) = if e.beq j k then delete k t else (j, v) ∷ delete k t

  -- INSERT OR REPLACE
  abbrev pub replace : K → V → Table K V → Table K V
  replace k v t = delete k t ++ (k, v) ∷ []

  -- UPDATE … WHERE key = k: the row keeps its place.
  abbrev pub update : K → (V → V) → Table K V → Table K V
  update k f [] = []
  update k f ((j, v) ∷ t) = if e.beq j k then (j, f v) ∷ update k f t else (j, v) ∷ update k f t

  abbrev pub contains : K → Table K V → Bool
  contains k t = elim (select k t) [ none ↦ false | some _ ↦ true ]

  -- No key stands twice: what PRIMARY KEY promises.
  abbrev pub IsKeyed : Table K V → Type κ
  IsKeyed [] = Unit
  IsKeyed ((k, v) ∷ t) = (select k t ≡ none) × IsKeyed t

  pub select-delete :
      (k j : K) (t : Table K V) → select j (delete k t) ≡ (if e.beq k j then none else select j t)
  select-delete k j [] = ground arith
  select-delete k j ((i, v) ∷ t) =
      ground (arith, e.beq_iff k j, e.beq_iff i k, e.beq_iff i j, select-delete k j t)

  select-append :
      (j k : K) (v : V) (t : Table K V)
      → select j (t ++ (k, v) ∷ [])
        ≡ elim (select j t) [ some w ↦ some w | none ↦ if e.beq k j then some v else none ]
  select-append j k v [] = refl
  select-append j k v ((i, w) ∷ t) = ground (arith, select-append j k v t)

  pub select-replace :
      (k j : K) (v : V) (t : Table K V)
      → select j (replace k v t) ≡ (if e.beq k j then some v else select j t)
  select-replace k j v t = ground (arith, select-append j k v (delete k t), select-delete k j t)

  pub select-update :
      (k j : K) (f : V → V) (t : Table K V)
      → select j (update k f t) ≡ (if e.beq k j then Option.map f (select j t) else select j t)
  select-update k j f [] = ground arith
  select-update k j f ((i, v) ∷ t) =
      ground (arith, e.beq_iff k j, e.beq_iff i k, e.beq_iff i j, select-update k j f t)

  pub contains-select : (k : K) (v : V) (t : Table K V) → select k t ≡ some v → contains k t ≡ true
  contains-select k v t h = ground arith

  delete-absent : (k : K) (t : Table K V) → select k t ≡ none → delete k t ≡ t
  delete-absent k [] h = refl
  delete-absent k ((i, v) ∷ t) h = ground (arith, delete-absent k t)

  pub delete-IsKeyed : (k : K) (t : Table K V) → IsKeyed t → IsKeyed (delete k t)
  delete-IsKeyed k [] h = h
  delete-IsKeyed k ((i, v) ∷ t) h = ground (arith, delete-IsKeyed k t h.1, select-delete k i t)

  pub append-IsKeyed :
      (k : K) (v : V) (t : Table K V) → select k t ≡ none → IsKeyed t → IsKeyed (t ++ (k, v) ∷ [])
  append-IsKeyed k v [] n h = (refl, tt)
  append-IsKeyed k v ((i, w) ∷ t) n h =
      ground (arith, append-IsKeyed k v t, select-append i k v t, e.beq_iff i k, e.beq_iff k i)

  pub replace-IsKeyed : (k : K) (v : V) (t : Table K V) → IsKeyed t → IsKeyed (replace k v t)
  replace-IsKeyed k v t h =
      append-IsKeyed k v (delete k t) (ground (arith, select-delete k k t, beq_refl k))
        (delete-IsKeyed k t h)

  -- A delete of a present key takes away exactly one row.
  pub length-delete :
      (k : K) (v : V) (t : Table K V)
      → IsKeyed t
      → select k t ≡ some v
      → length (delete k t) + 1 ≡ length t
  length-delete k v [] h s = cc
  length-delete k v ((i, w) ∷ t) h s = elim (Bool-cases (e.beq i k)) [
    | inl same ↦ ground (arith, e.beq_iff i k, delete-absent k t)
    | inr other ↦ ground (arith, length-delete k v t h.1)
  ]
