-- ===== src/Finality/Votes.antt =====
-- The votes of a checkpoint (`process_vote`, agent/modules/consensus_engine.py, lines 168 to 195): the
-- tally, its outcomes and finality.
use bitchchain.Base.{
  ℕ, ◌+◌, ◌*◌, ◌≤◌, ◌<◌, ◌≡◌, sym, ap, ◌∙◌, inl, inr, Bool, true, false, some, List, [], ◌∷◌, ◌++◌,
  Text, text_beq, text_beq_iff, text_eq, arith, Bool-cases, Option-cases, Table, select, replace,
  select-replace, ok,
}
use mathlib.Core.Path.{subst}
use bitchchain.Finality.{
  FinalityVote, Checkpoint, Registry, reaches_threshold, add_checkpoint, equivocates, has_voted,
  count_vote, target_of, process_vote, slash_validator,
}
use bitchchain.Finality.Threshold.{reaches_threshold_iff}

unfoldable pub sum_weights : List FinalityVote → ℕ
sum_weights [] = 0
sum_weights (v ∷ vs) = v.stake_weight + sum_weights vs

-- No validator stands twice among the votes.
abbrev pub VotesOnce : List FinalityVote → Type 0
VotesOnce [] = Unit
VotesOnce (v ∷ vs) = (has_voted v vs ≡ false) × VotesOnce vs

pub record IsTallied (c : Checkpoint) : Type 0 where
  pub summed : c.total_stake_voted ≡ sum_weights c.votes
  pub once : VotesOnce c.votes

-- Every stored checkpoint stands under its own hash and is tallied.
abbrev pub AllTallied : Table Text Checkpoint → Type 0
AllTallied cps =
    (hash : Text) (c : Checkpoint) → select hash cps ≡ some c → (c.block_hash ≡ hash) × IsTallied c

sum_weights-append :
    (vs : List FinalityVote) (v : FinalityVote)
    → sum_weights (vs ++ v ∷ []) ≡ sum_weights vs + v.stake_weight
unfolding sum_weights
sum_weights-append [] v = omega arith
sum_weights-append (w ∷ vs) v = omega (arith, sum_weights-append vs v)

has_voted-append :
    (v w : FinalityVote) (vs : List FinalityVote)
    → has_voted v vs ≡ false
    → text_beq w.validator_address v.validator_address ≡ false
    → has_voted v (vs ++ w ∷ []) ≡ false
unfolding has_voted
has_voted-append v w [] h n = ground arith
has_voted-append v w (u ∷ vs) h n = ground (arith, has_voted-append v w vs)

VotesOnce-append :
    (vs : List FinalityVote) (w : FinalityVote)
    → has_voted w vs ≡ false
    → VotesOnce vs
    → VotesOnce (vs ++ w ∷ [])
unfolding has_voted
VotesOnce-append [] w h once = ground arith
VotesOnce-append (v ∷ vs) w h once = ground (
  arith,
  text_beq_iff v.validator_address w.validator_address,
  text_beq_iff w.validator_address v.validator_address,
  has_voted-append v w vs,
  VotesOnce-append vs w,
)

pub count_vote-IsTallied :
    (now : ℕ) (vote : FinalityVote) (total : ℕ) (c : Checkpoint)
    → has_voted vote c.votes ≡ false
    → IsTallied c
    → IsTallied (count_vote now vote total c)
unfolding count_vote
count_vote-IsTallied now vote total c new t =
    ground (arith, sum_weights-append c.votes vote, VotesOnce-append c.votes vote new t.once)

pub target_of-found :
    (vote : FinalityVote) (reg : Registry) (c : Checkpoint)
    → select vote.target_checkpoint reg.checkpoints ≡ some c
    → target_of vote reg ≡ c
unfolding target_of
target_of-found vote reg c h = ground arith

module _ (now : ℕ) (vote : FinalityVote) (total : ℕ) (reg : Registry) where
  abbrev target : Checkpoint
  target = target_of vote reg

  abbrev tallied : Checkpoint
  tallied = count_vote now vote total (target_of vote reg)

  -- The three ways in which `process_vote` returns.
  pub data Outcome (answer : Bool) (after : Registry) : Type 0 where
    equivocated :
        equivocates vote target.votes ≡ true
        → answer ≡ false
        → after ≡ slash_validator vote.validator_address reg
        → Outcome answer after
    duplicate :
        equivocates vote target.votes ≡ false
        → has_voted vote target.votes ≡ true
        → answer ≡ false
        → after ≡ reg
        → Outcome answer after
    counted :
        has_voted vote target.votes ≡ false
        → answer ≡ tallied.is_finalized
        → after.validators ≡ reg.validators
        → after.checkpoints ≡ replace tallied.block_hash tallied reg.checkpoints
        → Outcome answer after

  pub process_vote-Outcome :
      (answer : Bool) (after : Registry)
      → process_vote now vote total reg ≡ ok (answer, after)
      → Outcome answer after
  unfolding process_vote add_checkpoint
  process_vote-Outcome answer after h = elim (Bool-cases (equivocates vote target.votes)) [
    | inl twice ↦
        let done : ok (false, slash_validator vote.validator_address reg) ≡ ok (answer, after) =
          rw twice at h in
        equivocated twice (cc done) (cc done)
    | inr consistent ↦ elim (Bool-cases (has_voted vote target.votes)) [
      | inl again ↦
          let done : ok (false, reg) ≡ ok (answer, after) = rw (consistent, again) at h in
          duplicate consistent again (cc done) (cc done)
      | inr new ↦ counted new (ground arith) (ground arith) (ground arith)
    ]
  ]

  pub target-IsTallied :
      AllTallied reg.checkpoints → (target.block_hash ≡ vote.target_checkpoint) × IsTallied target
  unfolding target_of sum_weights
  target-IsTallied all = elim (Option-cases (select vote.target_checkpoint reg.checkpoints)) [
    | inl absent ↦ ground arith
    | inr (c, found) ↦ ground (arith, all vote.target_checkpoint c)
  ]

  block_hash-tallied : tallied.block_hash ≡ target.block_hash
  unfolding count_vote
  block_hash-tallied = ground arith

  replace-AllTallied :
      AllTallied reg.checkpoints
      → has_voted vote target.votes ≡ false
      → AllTallied (replace tallied.block_hash tallied reg.checkpoints)
  replace-AllTallied all new hash c h =
      let law = select-replace tallied.block_hash hash tallied reg.checkpoints in
      elim (Bool-cases (text_beq tallied.block_hash hash)) [
        | inl same ↦
            let here : some tallied ≡ some c = sym (law ∙ rw same) ∙ h in
            subst (λ x. (x.block_hash ≡ hash) × IsTallied x) (cc here)
              (
                (text_beq_iff tallied.block_hash hash).0 same,
                count_vote-IsTallied now vote total target new (target-IsTallied all).1,
              )
        | inr other ↦ all hash c (sym (law ∙ rw other) ∙ h)
      ]

  -- `process_vote` keeps every checkpoint tallied: the recorded total is the sum of the weights of
  -- the recorded votes, and no validator stands among them twice.
  pub process_vote-AllTallied :
      (answer : Bool) (after : Registry)
      → process_vote now vote total reg ≡ ok (answer, after)
      → AllTallied reg.checkpoints
      → AllTallied after.checkpoints
  unfolding slash_validator
  process_vote-AllTallied answer after h all = elim (process_vote-Outcome answer after h) [
    | equivocated e a same ↦ subst (λ (r : Registry). AllTallied r.checkpoints) (sym same) all
    | duplicate e d a same ↦ subst (λ (r : Registry). AllTallied r.checkpoints) (sym same) all
    | counted new a v stored ↦ subst AllTallied (sym stored) (replace-AllTallied all new)
  ]

  finalized-threshold :
      target.is_finalized ≡ false
      → tallied.is_finalized ≡ true
      → (0 < total) × (reaches_threshold tallied.total_stake_voted total ≡ true)
  unfolding count_vote
  finalized-threshold open_before done = ground arith

  -- A vote that finalizes its checkpoint: after the call the stored checkpoint is finalized, and the
  -- recorded votes, of distinct validators, carry at least two thirds of the total stake, if that is
  -- at most 3,602,879,701,896,396 satoshis.
  pub process_vote-finalizes :
      (after : Registry)
      → total ≤ 3_602_879_701_896_396
      → AllTallied reg.checkpoints
      → (target_of vote reg).is_finalized ≡ false
      → process_vote now vote total reg ≡ ok (true, after)
      → (c : Checkpoint) × (select vote.target_checkpoint after.checkpoints ≡ some c)
        × (c.is_finalized ≡ true)
        × VotesOnce c.votes
        × (2 * total ≤ 3 * sum_weights c.votes)
  process_vote-finalizes after small all open_before h = elim (process_vote-Outcome true after h) [
    | equivocated e a same ↦ absurd (cc a)
    | duplicate e d a same ↦ absurd (cc a)
    | counted new a v stored ↦
        let (positive, reached) = finalized-threshold open_before (sym a) in
        let t = count_vote-IsTallied now vote total target new (target-IsTallied all).1 in
        let key : tallied.block_hash ≡ vote.target_checkpoint =
          block_hash-tallied ∙ (target-IsTallied all).0 in
        (
          tallied,
          ap (select vote.target_checkpoint) stored
              ∙ select-replace tallied.block_hash vote.target_checkpoint tallied reg.checkpoints
              ∙ rw ((text_beq_iff tallied.block_hash vote.target_checkpoint).1 key),
          sym a,
          t.once,
          subst (λ n. 2 * total ≤ 3 * n) t.summed
              ((reaches_threshold_iff tallied.total_stake_voted total positive small).0 reached),
        )
  ]

  stays_final : target.is_finalized ≡ true → tallied.is_finalized ≡ true
  unfolding count_vote
  stays_final h = ground arith

  target-final :
      (hash : Text) (c : Checkpoint)
      → AllTallied reg.checkpoints
      → text_beq tallied.block_hash hash ≡ true
      → select hash reg.checkpoints ≡ some c
      → c.is_finalized ≡ true
      → target.is_finalized ≡ true
  target-final hash c all same found final =
      let key : vote.target_checkpoint ≡ hash =
        sym (target-IsTallied all).0
        ∙ sym block_hash-tallied
        ∙ (text_beq_iff tallied.block_hash hash).0 same in
      let at_target : select vote.target_checkpoint reg.checkpoints ≡ some c =
        ap (λ k. select k reg.checkpoints) key ∙ found in
      ap (λ (x : Checkpoint). x.is_finalized) (target_of-found vote reg c at_target) ∙ final

  -- Votes never take finality back: a finalized checkpoint is finalized after any vote.
  pub process_vote-keeps_final :
      (answer : Bool) (after : Registry) (hash : Text) (c : Checkpoint)
      → process_vote now vote total reg ≡ ok (answer, after)
      → AllTallied reg.checkpoints
      → select hash reg.checkpoints ≡ some c
      → c.is_finalized ≡ true
      → (c' : Checkpoint) × (select hash after.checkpoints ≡ some c') × (c'.is_finalized ≡ true)
  unfolding slash_validator
  process_vote-keeps_final answer after hash c h all found final =
      elim (process_vote-Outcome answer after h) [
        | equivocated e a same ↦ (
          c,
          subst (λ (r : Registry). select hash r.checkpoints ≡ some c) (sym same) found,
          final,
        )
        | duplicate e d a same ↦ (
          c,
          subst (λ (r : Registry). select hash r.checkpoints ≡ some c) (sym same) found,
          final,
        )
        | counted new a v stored ↦
            let law =
              ap (select hash) stored
              ∙ select-replace tallied.block_hash hash tallied reg.checkpoints in
            elim (Bool-cases (text_beq tallied.block_hash hash)) [
              | inl same ↦
                  (tallied, law ∙ rw same, stays_final (target-final hash c all same found final))
              | inr other ↦ (c, law ∙ rw other found, final)
            ]
      ]
