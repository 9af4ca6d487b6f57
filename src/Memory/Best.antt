-- ===== src/Memory/Best.antt =====
-- What the query of the mempool selects (`get_mempool`, agent/memory/memory_manager.py, lines 108 to
-- 119): `ORDER BY fee_satoshis DESC LIMIT ?`.
use bitchchain.Base.{
  ℕ, zero, suc, ◌≤◌, ◌≡◌, refl, sym, ap, inl, inr, ◌⊎◌, List, [], ◌∷◌, ◌++◌, arith, length, take,
  drop, leb_ℤ, ◌≤ℤ◌, Bool-cases, Text, traverse,
}
use mathlib.Core.Path.{subst}
use mathlib.Core.List.{Perm}
use mathlib.Core.List.Perm
use bitchchain.Base.Every.{Every, Every-map}
use bitchchain.Json.{Codec}
use bitchchain.Memory.{PoolRow, Memory, insert_row, by_fee, pool_entry, get_mempool}

abbrev Row : Type 0 → Type 0
Row Raw = Text × PoolRow Raw

Every-drop : {A : Type 0} (P : A → Type 0) (n : ℕ) (xs : List A) → Every P xs → Every P (drop n xs)
unfolding Every
Every-drop P zero xs h = h
Every-drop P (suc n) [] h = tt
Every-drop P (suc n) (x ∷ xs) h = Every-drop P n xs h.1

module _ {Raw : Type 0} where
  -- The first pays no more than the second.
  abbrev pub PaysLess : Row Raw → Row Raw → Type 0
  PaysLess b a = b.1.fee_satoshis ≤ℤ a.1.fee_satoshis

  insert_row-Perm :
      (row : Row Raw) (rows : List (Row Raw)) → Perm (insert_row row rows) (row ∷ rows)
  unfolding insert_row
  insert_row-Perm row [] = Perm.refl (row ∷ [])
  insert_row-Perm row (a ∷ rows) = elim (Bool-cases (leb_ℤ a.1.fee_satoshis row.1.fee_satoshis)) [
    | inl before ↦ rw before (Perm.refl (row ∷ a ∷ rows))
    | inr behind ↦
        rw behind (Perm.trans (Perm.cons a (insert_row-Perm row rows)) (Perm.swap row a rows))
  ]

  by_fee-Perm : (rows : List (Row Raw)) → Perm (by_fee rows) rows
  unfolding by_fee
  by_fee-Perm [] = Perm.nil
  by_fee-Perm (row ∷ rows) =
      Perm.trans (insert_row-Perm row (by_fee rows)) (Perm.cons row (by_fee-Perm rows))

  -- No row pays more than any row before it.
  unfoldable IsOrderedByFee : List (Row Raw) → Type 0
  unfolding Every
  IsOrderedByFee [] = Unit
  IsOrderedByFee (a ∷ rows) = Every (λ b. PaysLess b a) rows × IsOrderedByFee rows

  insert_row-Every :
      (P : (Row Raw) → Type 0) (row : Row Raw) (rows : List (Row Raw))
      → P row
      → Every P rows
      → Every P (insert_row row rows)
  unfolding insert_row Every
  insert_row-Every P row [] h hs = (h, tt)
  insert_row-Every P row (a ∷ rows) h hs =
      elim (Bool-cases (leb_ℤ a.1.fee_satoshis row.1.fee_satoshis)) [
        | inl before ↦ rw before (h, hs)
        | inr behind ↦ rw behind (hs.0, insert_row-Every P row rows h hs.1)
      ]

  insert_row-IsOrderedByFee :
      (row : Row Raw) (rows : List (Row Raw))
      → IsOrderedByFee rows
      → IsOrderedByFee (insert_row row rows)
  unfolding insert_row IsOrderedByFee Every
  insert_row-IsOrderedByFee row [] h = (tt, tt)
  insert_row-IsOrderedByFee row (a ∷ rows) h =
      elim (Bool-cases (leb_ℤ a.1.fee_satoshis row.1.fee_satoshis)) [
        | inl before ↦
            let low : PaysLess a row = ground (arith, before) in
            rw before (
              (
                low,
                Every-map (λ b. PaysLess b a) (λ b. PaysLess b row) rows
                    (λ b less. omega (arith, less, low)) h.0,
              ),
              h,
            )
        | inr behind ↦
            let high : PaysLess row a = ground (arith, behind) in
            rw behind (
              insert_row-Every (λ b. PaysLess b a) row rows high h.0,
              insert_row-IsOrderedByFee row rows h.1,
            )
      ]

  by_fee-IsOrderedByFee : (rows : List (Row Raw)) → IsOrderedByFee (by_fee rows)
  unfolding by_fee IsOrderedByFee
  by_fee-IsOrderedByFee [] = tt
  by_fee-IsOrderedByFee (row ∷ rows) =
      insert_row-IsOrderedByFee row (by_fee rows) (by_fee-IsOrderedByFee rows)

  -- Where a list is ordered, what is cut off pays no more than what is kept, and nothing is cut off of
  -- fewer rows than the limit.
  take-best :
      (n : ℕ) (rows : List (Row Raw))
      → IsOrderedByFee rows
      → (take n rows ++ drop n rows ≡ rows)
        × (length (take n rows) ≤ n)
        × ((length (take n rows) ≡ n) ⊎ (drop n rows ≡ []))
        × Every (λ a. Every (λ b. PaysLess b a) (drop n rows)) (take n rows)
  unfolding IsOrderedByFee Every
  take-best zero rows h = (refl, omega arith, inl refl, tt)
  take-best (suc n) [] h = (refl, omega arith, inr refl, tt)
  take-best (suc n) (a ∷ rows) h =
      let (whole, few, end, best) = take-best n rows h.1 in
      let last : (suc (length (take n rows)) ≡ suc n) ⊎ (drop n rows ≡ []) = elim end [
        | inl full ↦ inl (ap suc full)
        | inr none_left ↦ inr none_left
      ] in
      (
        ap (λ t. a ∷ t) whole,
        omega (arith, few),
        last,
        (Every-drop (λ b. PaysLess b a) n rows h.0, best),
      )

module _ (codec : Codec) where
  open codec use {Raw}

  -- The rows behind the entries that `get_mempool` returns: they and the rows that it leaves out are
  -- those of the mempool, there are as many as the limit or nothing is left out, and none that is
  -- left out pays more than one that is returned.
  abbrev pub IsBest : ℕ → Memory Raw → List (Row Raw) → Type 0
  IsBest limit memory kept =
      (omitted : List (Row Raw)) × Perm (kept ++ omitted) memory.mempool
      × (length kept ≤ limit)
      × ((length kept ≡ limit) ⊎ (omitted ≡ []))
      × Every (λ a. Every (λ b. PaysLess b a) omitted) kept

  -- `get_mempool` reads the rows of the best-paying transactions: at most the limit, every
  -- transaction where there are no more than that, and otherwise none that pays less than one that
  -- is left out.
  pub get_mempool-IsBest :
      (limit : ℕ) (memory : Memory Raw)
      → (kept : List (Row Raw)) × IsBest limit memory kept
        × (get_mempool codec limit memory ≡ traverse (pool_entry codec) kept)
  unfolding get_mempool
  get_mempool-IsBest limit memory =
      let sorted = by_fee memory.mempool in
      let (whole, few, end, best) = take-best limit sorted (by_fee-IsOrderedByFee memory.mempool) in
      let all : Perm (take limit sorted ++ drop limit sorted) memory.mempool =
        subst (λ t. Perm t memory.mempool) (sym whole) (by_fee-Perm memory.mempool) in
      (take limit sorted, (drop limit sorted, all, few, end, best), refl)
