-- ===== src/Consensus/Finalizing.antt =====
-- What the registry holds after any sequence of registrations, blocks and votes, and what the
-- replies of `HybridConsensus` do not tell (agent/modules/consensus_engine.py, lines 307 to 348).
use bitchchain.Base.{
  ℕ, ◌≡◌, sym, ap, ◌∙◌, ◌⊎◌, inl, inr, Bool, true, false, [], ℤ, pos, negsuc, ltb, Text,
  text_beq_iff, text_eq, arith, Bool-cases, Option-cases, select-replace, ok, ◌>>=◌, >>=-eq-ok,
  or_raise, attribute_error,
}
use mathlib.Core.Path.{subst}
use bitchchain.Tx.{Block}
use bitchchain.Finality.{
  ValidatorRecord, FinalityVote, Checkpoint, Registry, min_stake_satoshis, store_validator,
  get_validator, total_active_stake, add_checkpoint, get_checkpoint, fresh_checkpoint, has_voted,
  process_vote,
}
use bitchchain.Finality.Votes.{AllTallied, sum_weights, process_vote-AllTallied}
use bitchchain.Consensus.{
  Reply, recorded, open_checkpoint, weighted, reply_to, vote_of, submit_vote, register_validator,
}

-- The states of the registry: empty, then registrations, votes, and the checkpoints that applied
-- blocks open, in any order and number.
pub data Reach : Registry → Type 0 where
  created : Reach (record { validators = []; checkpoints = [] })
  joined :
      {reg after : Registry} {reply : Bool × Reply} (address : Text) (stake : ℤ) (txid : Text)
      (height : ℤ)
      → Reach reg
      → register_validator address stake txid height reg ≡ ok (reply, after)
      → Reach after
  voted :
      {reg after : Registry} {reply : Bool × Reply} (now : ℕ) (vote : FinalityVote)
      → Reach reg
      → submit_vote now vote reg ≡ ok (reply, after)
      → Reach after
  opened :
      {reg after : Registry} (block : Block)
      → Reach reg
      → open_checkpoint block reg ≡ ok after
      → Reach after

pub register_validator-checkpoints :
    (address : Text) (stake : ℤ) (txid : Text) (height : ℤ) (reg after : Registry)
    (reply : Bool × Reply)
    → register_validator address stake txid height reg ≡ ok (reply, after)
    → after.checkpoints ≡ reg.checkpoints
unfolding register_validator store_validator
register_validator-checkpoints address (pos n) txid height reg after reply h = ground arith
register_validator-checkpoints address (negsuc n) txid height reg after reply h = ground arith

replied :
    (hash : Text) (answer : Bool) (reg after : Registry) (reply : Bool × Reply)
    → reply_to hash (answer, reg) ≡ ok (reply, after)
    → reg ≡ after
unfolding reply_to
replied hash true reg after reply h = cc h
replied hash false reg after reply h =
    let (c, found, done) =
      >>=-eq-ok (or_raise (get_checkpoint hash reg) attribute_error)
        (λ (c : Checkpoint). ok ((true, recorded c.total_stake_voted), reg)) h in
    cc done

-- A vote that is let through is processed with the weight of some validator; any other leaves the
-- registry as it was.
abbrev Processed : ℕ → FinalityVote → Registry → Registry → Type 0
Processed now vote reg after =
    (v : ValidatorRecord) × (total : ℕ) × (answer : Bool) × (process_vote now (weighted vote v)
        total reg
      ≡ ok (answer, after))

vote_of-parts :
    (now : ℕ) (vote : FinalityVote) (v : ValidatorRecord) (reg after : Registry)
    (reply : Bool × Reply)
    → vote_of now vote v reg ≡ ok (reply, after)
    → (reg ≡ after) ⊎ Processed now vote reg after
unfolding vote_of
vote_of-parts now vote v reg after reply h = elim (Bool-cases v.is_active) [
  | inr idle ↦ inl (cc (rw idle at h))
  | inl active ↦ elim (Bool-cases (ltb v.stake_satoshis min_stake_satoshis)) [
    | inl poor ↦ inl (cc (rw (active, poor) at h))
    | inr rich ↦
        let (total, summed, rest) =
          >>=-eq-ok (total_active_stake reg)
            (λ total. process_vote now (weighted vote v) total reg >>= λ out.
              reply_to vote.target_checkpoint out)
            (rw (active, rich) at h) in
        let (out, processed, last) =
          >>=-eq-ok (process_vote now (weighted vote v) total reg)
            (λ out. reply_to vote.target_checkpoint out) rest in
        let same = replied vote.target_checkpoint out.0 out.1 after reply last in
        inr (v, total, out.0, processed ∙ ap (λ r. ok (out.0, r)) same)
  ]
]

pub submit_vote-parts :
    (now : ℕ) (vote : FinalityVote) (reg after : Registry) (reply : Bool × Reply)
    → submit_vote now vote reg ≡ ok (reply, after)
    → (reg ≡ after) ⊎ Processed now vote reg after
unfolding submit_vote
submit_vote-parts now vote reg after reply h =
    elim (Option-cases (get_validator vote.validator_address reg)) [
      | inl unknown ↦ inl (ground arith)
      | inr (v, known) ↦ vote_of-parts now vote v reg after reply (ground arith)
    ]

submit_vote-AllTallied :
    (now : ℕ) (vote : FinalityVote) (reg after : Registry) (reply : Bool × Reply)
    → submit_vote now vote reg ≡ ok (reply, after)
    → AllTallied reg.checkpoints
    → AllTallied after.checkpoints
submit_vote-AllTallied now vote reg after reply h all =
    elim (submit_vote-parts now vote reg after reply h) [
      | inl same ↦ subst (λ (r : Registry). AllTallied r.checkpoints) same all
      | inr (v, total, answer, processed) ↦
          process_vote-AllTallied now (weighted vote v) total reg answer after processed all
    ]

open_checkpoint-AllTallied :
    (block : Block) (reg after : Registry)
    → open_checkpoint block reg ≡ ok after
    → AllTallied reg.checkpoints
    → AllTallied after.checkpoints
unfolding open_checkpoint add_checkpoint has_voted sum_weights
open_checkpoint-AllTallied block reg after h all hash c found = ground (
  arith,
  all hash c,
  text_beq_iff block.block_hash hash,
  select-replace block.block_hash hash (fresh_checkpoint block.block_hash block.header.height)
      reg.checkpoints,
)

-- In every reachable registry each checkpoint stands under its own hash, its recorded total is the
-- sum of the weights of its recorded votes, and no validator stands among these twice.
pub Reach-AllTallied : (reg : Registry) → Reach reg → AllTallied reg.checkpoints
Reach-AllTallied reg created = λ hash c h. absurd (cc h)
Reach-AllTallied reg (joined {reg = before} {reply = reply} address stake txid height r h) =
    subst AllTallied
      (sym (register_validator-checkpoints address stake txid height before reg reply h))
      (Reach-AllTallied before r)
Reach-AllTallied reg (voted {reg = before} {reply = reply} now vote r h) =
    submit_vote-AllTallied now vote before reg reply h (Reach-AllTallied before r)
Reach-AllTallied reg (opened {reg = before} block r h) =
    open_checkpoint-AllTallied block before reg h (Reach-AllTallied before r)
