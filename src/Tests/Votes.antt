-- ===== src/Tests/Votes.antt =====
-- Validators, votes and checkpoints at concrete values.
use bitchchain.Base.{
  Bool-cases, inl, inr, ◌∙◌, text_beq_iff, ◌*◌, ◌≤◌, ◌≡◌, refl, ◌↔◌, arith, true, false, some, [],
  ◌∷◌, Text, text, text_eq, text_beq, pos, ok, select,
}
use mathlib.Core.Path.{subst}
use bitchchain.Finality.{
  ValidatorRecord, FinalityVote, Checkpoint, Registry, reaches_threshold, add_checkpoint,
  fresh_checkpoint, equivocates, has_voted, count_vote, target_of, process_vote,
}
use bitchchain.Finality.Threshold.{reaches_threshold_iff}
use bitchchain.Finality.Votes.{
  sum_weights, VotesOnce, AllTallied, IsTallied, process_vote-finalizes, process_vote-keeps_final,
}

abbrev alice : ValidatorRecord
alice = record {
  address = text "alice";
  stake_satoshis = 4_000_000_000;
  stake_txid = [];
  registered_at_height = pos 0;
  is_active = true;
  slashed = false;
}

abbrev vote : FinalityVote
vote = record {
  validator_address = text "alice";
  source_checkpoint = text "s";
  target_checkpoint = text "t";
  stake_weight = 4_000_000_000;
  signature = [];
  timestamp = 0;
}

abbrev target : Checkpoint
target = record {
  block_hash = text "t";
  height = pos 100;
  total_stake_voted = 4_000_000_000;
  votes = vote ∷ [];
  is_finalized = true;
  finalized_at = some 7;
}

abbrev fresh : Registry
fresh = record {
  validators = (text "alice", alice) ∷ [];
  checkpoints = (text "t", fresh_checkpoint (text "t") (pos 100)) ∷ [];
}

abbrev voted : Registry
voted = record { validators = (text "alice", alice) ∷ []; checkpoints = (text "t", target) ∷ [] }

reaches_threshold_iff_example : (reaches_threshold 67 100 ≡ true) ↔ (2 * 100 ≤ 3 * 67)
reaches_threshold_iff_example = reaches_threshold_iff 67 100 (omega arith) (omega arith)

counted : process_vote 7 vote 4_000_000_000 fresh ≡ ok (true, voted)
unfolding process_vote target_of count_vote equivocates has_voted add_checkpoint reaches_threshold
    text_beq
counted = refl

one-AllTallied :
    (k : Text) (c : Checkpoint) → c.block_hash ≡ k → IsTallied c → AllTallied ((k, c) ∷ [])
one-AllTallied k c named tallied hash d h = elim (Bool-cases (text_beq k hash)) [
  | inl same ↦
      let e : c ≡ d = cc (rw same at h) in
      subst (λ c. (c.block_hash ≡ hash) × IsTallied c) e
        (named ∙ (text_beq_iff k hash).0 same, tallied)
  | inr other ↦ absurd (cc (rw other at h))
]

fresh-AllTallied : AllTallied fresh.checkpoints
unfolding sum_weights
fresh-AllTallied =
    one-AllTallied (text "t") (fresh_checkpoint (text "t") (pos 100)) refl
      (record { summed = refl; once = tt })

voted-AllTallied : AllTallied voted.checkpoints
unfolding sum_weights has_voted
voted-AllTallied =
    one-AllTallied (text "t") target refl (record { summed = refl; once = (refl, tt) })

not_final : (target_of vote fresh).is_finalized ≡ false
unfolding target_of text_beq
not_final = refl

process_vote-finalizes_example :
    (c : Checkpoint) × (select (text "t") voted.checkpoints ≡ some c)
    × (c.is_finalized ≡ true)
    × VotesOnce c.votes
    × (2 * 4_000_000_000 ≤ 3 * sum_weights c.votes)
process_vote-finalizes_example =
    process_vote-finalizes 7 vote 4_000_000_000 fresh voted (omega arith) fresh-AllTallied not_final
      counted

again : process_vote 8 vote 4_000_000_000 voted ≡ ok (false, voted)
unfolding process_vote target_of count_vote equivocates has_voted add_checkpoint reaches_threshold
    text_beq
again = refl

stored_target : select (text "t") voted.checkpoints ≡ some target
unfolding text_beq
stored_target = refl

process_vote-keeps_final_example :
    (c : Checkpoint) × (select (text "t") voted.checkpoints ≡ some c) × (c.is_finalized ≡ true)
process_vote-keeps_final_example =
    process_vote-keeps_final 8 vote 4_000_000_000 voted false voted (text "t") target again
      voted-AllTallied stored_target refl
