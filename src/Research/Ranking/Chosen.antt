-- ===== src/Research/Ranking/Chosen.antt =====
-- What is chosen from the candidates (`run`, tools/knowledge_updater.py, lines 239 to 249).
use bitchchain.Base.{
  ℕ, zero, suc, ◌≤◌, ◌≡◌, refl, ap, ◌⊎◌, inl, inr, true, false, List, [], ◌∷◌, ◌++◌, arith, length,
  take, Bool-cases,
}
use mathlib.Core.List.{Perm}
use mathlib.Core.List.Perm
use bitchchain.Base.Every.{Every, Every-map}
use bitchchain.Research.Ranking.{
  Floats, IsOrdered, Scored, insert_scored, by_score, is_relevant, relevant, choose,
  max_new_entries_per_run,
}

module _ (floats : Floats) where
  open floats use {at_most}

  pub insert_scored-Every :
      (P : Scored floats → Type 0) (x : Scored floats) (xs : List (Scored floats))
      → P x
      → Every P xs
      → Every P (insert_scored floats x xs)
  unfolding insert_scored Every
  insert_scored-Every P x [] h hs = (h, tt)
  insert_scored-Every P x (y ∷ ys) h hs = elim (Bool-cases (at_most y.1 x.1)) [
    | inl before ↦ rw before (h, hs)
    | inr behind ↦ rw behind (hs.0, insert_scored-Every P x ys h hs.1)
  ]

module _ (floats : Floats) (order : IsOrdered floats) where
  open floats use {at_most, tenths}

  -- No score is above one that stands before it.
  unfoldable pub IsDescending : List (Scored floats) → Type 0
  unfolding Every
  IsDescending [] = Unit
  IsDescending (x ∷ xs) = Every (λ y. at_most y.1 x.1 ≡ true) xs × IsDescending xs

  insert_scored-Perm :
      (x : Scored floats) (xs : List (Scored floats)) → Perm (insert_scored floats x xs) (x ∷ xs)
  unfolding insert_scored
  insert_scored-Perm x [] = Perm.refl (x ∷ [])
  insert_scored-Perm x (y ∷ ys) = elim (Bool-cases (at_most y.1 x.1)) [
    | inl before ↦ rw before (Perm.refl (x ∷ y ∷ ys))
    | inr behind ↦ rw behind (Perm.trans (Perm.cons y (insert_scored-Perm x ys)) (Perm.swap x y ys))
  ]

  by_score-Perm : (xs : List (Scored floats)) → Perm (by_score floats xs) xs
  unfolding by_score
  by_score-Perm [] = Perm.nil
  by_score-Perm (x ∷ xs) =
      Perm.trans (insert_scored-Perm x (by_score floats xs)) (Perm.cons x (by_score-Perm xs))

  insert_scored-IsDescending :
      (x : Scored floats) (xs : List (Scored floats))
      → IsDescending xs
      → IsDescending (insert_scored floats x xs)
  unfolding insert_scored IsDescending Every
  insert_scored-IsDescending x [] h = (tt, tt)
  insert_scored-IsDescending x (y ∷ ys) h = elim (Bool-cases (at_most y.1 x.1)) [
    | inl before ↦ rw before (
      (
        before,
        Every-map (λ z. at_most z.1 y.1 ≡ true) (λ z. at_most z.1 x.1 ≡ true) ys
            (λ z low. order.transitive z.1 y.1 x.1 low before) h.0,
      ),
      h,
    )
    | inr behind ↦ rw behind (
      insert_scored-Every floats (λ z. at_most z.1 y.1 ≡ true) x ys (order.total y.1 x.1 behind)
          h.0,
      insert_scored-IsDescending x ys h.1,
    )
  ]

  by_score-IsDescending : (xs : List (Scored floats)) → IsDescending (by_score floats xs)
  unfolding by_score IsDescending
  by_score-IsDescending [] = tt
  by_score-IsDescending (x ∷ xs) =
      insert_scored-IsDescending x (by_score floats xs) (by_score-IsDescending xs)

  -- Where no element is relevant, none is kept.
  relevant-none :
      (n : ℕ) (xs : List (Scored floats))
      → Every (λ x. is_relevant floats x ≡ false) xs
      → relevant floats (take n xs) ≡ []
  unfolding relevant Every
  relevant-none zero xs h = refl
  relevant-none (suc n) [] h = refl
  relevant-none (suc n) (x ∷ xs) h = rw (h.0, relevant-none n xs h.1) refl

  irrelevant-below :
      (x y : Scored floats)
      → is_relevant floats x ≡ false
      → at_most y.1 x.1 ≡ true
      → is_relevant floats y ≡ false
  irrelevant-below x y low below =
      let bounded : at_most x.1 (tenths 1) ≡ true = ground arith in
      ground (arith, order.transitive y.1 x.1 (tenths 1) below bounded)

  -- The first `n` of a descending list, as far as they are relevant, are a beginning of the list:
  -- there are `n`, or nothing behind them is relevant.
  abbrev pub IsChoice : ℕ → List (Scored floats) → List (Scored floats) → Type 0
  IsChoice n sorted chosen =
      (rest : List (Scored floats)) × (sorted ≡ chosen ++ rest)
      × (length chosen ≤ n)
      × Every (λ x. is_relevant floats x ≡ true) chosen
      × ((length chosen ≡ n) ⊎ Every (λ x. is_relevant floats x ≡ false) rest)

  relevant-IsChoice :
      (n : ℕ) (sorted : List (Scored floats))
      → IsDescending sorted
      → IsChoice n sorted (relevant floats (take n sorted))
  unfolding relevant IsDescending Every
  relevant-IsChoice zero sorted h = (sorted, refl, omega arith, tt, inl refl)
  relevant-IsChoice (suc n) [] h = ([], refl, omega arith, tt, inr tt)
  relevant-IsChoice (suc n) (x ∷ xs) h = elim (Bool-cases (is_relevant floats x)) [
    | inl good ↦
        let (rest, split, few, all, end) = relevant-IsChoice n xs h.1 in
        let full : (suc (length (relevant floats (take n xs))) ≡ suc n)
            ⊎ Every (λ x. is_relevant floats x ≡ false) rest =
          elim end [ inl same ↦ inl (ap suc same) | inr low ↦ inr low ] in
        rw good (rest, ap (λ t. x ∷ t) split, omega (arith, few), (good, all), full)
    | inr low ↦
        let lower =
          Every-map (λ y. at_most y.1 x.1 ≡ true) (λ y. is_relevant floats y ≡ false) xs
            (λ y below. irrelevant-below x y low below) h.0 in
        rw (low, relevant-none n xs lower) (x ∷ xs, refl, omega arith, tt, inr (low, lower))
  ]

  -- The new entries of a run are the beginning of the candidates in descending order of their scores:
  -- ten at most, all with a score above 0.1, and where there are fewer than ten no other candidate has
  -- such a score. This needs the scores to be ordered, which floats that are not NaN are.
  pub choose-IsChoice :
      (scored : List (Scored floats))
      → (sorted : List (Scored floats)) × Perm sorted scored
        × IsDescending sorted
        × IsChoice max_new_entries_per_run sorted (choose floats scored)
  unfolding choose
  choose-IsChoice scored =
      let sorted = by_score floats scored in
      (
        sorted,
        by_score-Perm scored,
        by_score-IsDescending scored,
        relevant-IsChoice max_new_entries_per_run sorted (by_score-IsDescending scored),
      )
