-- ===== src/Research/Ranking.antt =====
-- The score of a paper and the choice of the best (`_score_paper` and `run`, tools/knowledge_updater.py,
-- lines 72 to 92 and 239 to 249). Floats are an interface; `days_old` is what `datetime` makes of a date.
pub mod Chosen
use bitchchain.Base.{
  ℕ, zero, suc, ◌+◌, ◌≤◌, ◌≡◌, refl, sym, ap, ◌∙◌, ◌⊎◌, inl, inr, Bool, true, false, not, Option,
  none, some, List, [], ◌∷◌, ◌++◌, map, Text, text, arith, ℤ, pos, ltb_ℤ, leb_ℤ, if◌then◌else◌,
  length, take, Result, ok, err, Bool-cases,
}
use mathlib.Core.Path.{subst}
use Prim.Native.String.{String}
use mathlib.Core.List.{Perm}
use mathlib.Core.List.Perm
use bitchchain.Base.Substring.{occurs_in}
use bitchchain.Research.{Paper}

-- The floats that a score is computed in. `at_most` is `<=`.
pub record Floats : Type 1 where
  pub Float : Type 0
  pub of_int : ℤ → Float
  pub tenths : ℕ → Float
  pub plus : Float → Float → Float
  pub minus : Float → Float → Float
  pub times : Float → Float → Float
  pub over : Float → Float → Float
  pub lesser : Float → Float → Float
  pub at_most : Float → Float → Bool

-- What the order of the floats promises, none of which is NaN.
pub record IsOrdered (floats : Floats) : Type 0 where
  pub total : (a b : floats.Float) → floats.at_most a b ≡ false → floats.at_most b a ≡ true
  pub transitive :
      (a b c : floats.Float)
      → floats.at_most a b ≡ true
      → floats.at_most b c ≡ true
      → floats.at_most a c ≡ true

abbrev pub blockchain_keywords : List String
blockchain_keywords =
    "blockchain" ∷ "consensus" ∷ "proof-of-stake" ∷ "proof of stake" ∷ "confidential transactions"
    ∷ "zero-knowledge" ∷ "UTXO" ∷ "throughput" ∷ "finality" ∷ "Pedersen commitment" ∷ "Bulletproof"
    ∷ "byzantine fault" ∷ "distributed ledger" ∷ "smart contract" ∷ "lightning network" ∷ "layer 2"
    ∷ "rollup" ∷ []

abbrev pub recency_window_days : ℤ
recency_window_days = pos 90

abbrev pub max_new_entries_per_run : ℕ
max_new_entries_per_run = 10

unfoldable pub keyword_hits : (Text → Text) → Text → List String → ℕ
keyword_hits lower body [] = 0
keyword_hits lower body (k ∷ ks) =
    let rest = keyword_hits lower body ks in
    if occurs_in (lower (text k)) body then suc rest else rest

module _ (floats : Floats) where
  open floats use {Float, of_int, tenths, plus, minus, times, over, lesser, at_most}

  abbrev pub recency_of : Result ℤ → Float
  recency_of (err e) = tenths 3
  recency_of (ok days) =
      if leb_ℤ days recency_window_days
      then minus (of_int (pos 1)) (over (of_int days) (of_int recency_window_days))
      else of_int (pos 0)

  -- `_score_paper`
  unfoldable pub score_paper : (Text → Text) → (Text → Result ℤ) → Paper → Float
  score_paper lower days_old paper =
      let recency : Float = elim paper.published_date [
        | [] ↦ of_int (pos 0)
        | _ ∷ _ ↦ recency_of (days_old paper.published_date)
      ] in
      let body = lower (paper.title ++ (text " " ++ paper.abstract)) in
      let hits = keyword_hits lower body blockchain_keywords in
      let relevance = lesser (over (of_int (pos hits)) (of_int (pos 3))) (of_int (pos 1)) in
      plus (times (tenths 6) recency) (times (tenths 4) relevance)

  abbrev pub Scored : Type 0
  Scored = Paper × Float

  -- `scored.sort(key=…, reverse=True)`: descending, and equal scores keep their order.
  unfoldable pub insert_scored : Scored → List Scored → List Scored
  insert_scored x [] = x ∷ []
  insert_scored x (y ∷ ys) =
      let later = insert_scored x ys in if at_most y.1 x.1 then x ∷ y ∷ ys else y ∷ later

  unfoldable pub by_score : List Scored → List Scored
  unfolding insert_scored
  by_score [] = []
  by_score (x ∷ xs) = insert_scored x (by_score xs)

  -- `score > 0.1`
  abbrev pub is_relevant : Scored → Bool
  is_relevant x = not (at_most x.1 (tenths 1))

  unfoldable pub relevant : List Scored → List Scored
  relevant [] = []
  relevant (x ∷ xs) = let rest = relevant xs in if is_relevant x then x ∷ rest else rest

  abbrev pub score_all : (Text → Text) → (Text → Result ℤ) → List Paper → List Scored
  score_all lower days_old [] = []
  score_all lower days_old (p ∷ ps) =
      (p, score_paper lower days_old p) ∷ score_all lower days_old ps

  -- The new entries of a run.
  unfoldable pub choose : List Scored → List Scored
  unfolding by_score relevant
  choose scored = relevant (take max_new_entries_per_run (by_score scored))
