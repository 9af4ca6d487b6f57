-- ===== src/Consensus/Replies.antt =====
-- The replies to refused votes, repeated registrations and late checkpoints (agent/modules/consensus_engine.py, lines 307 to 348).
use bitchchain.Base.{
  ℕ, ◌≤◌, ◌≡◌, refl, ◌∙◌, true, false, some, ℤ, pos, Text, text_eq, arith, select, replace,
  select-replace, beq_refl, ok,
}
use bitchchain.Tx.{Block}
use bitchchain.Utxo.{fits_i64}
use bitchchain.Finality.{
  ValidatorRecord, FinalityVote, Checkpoint, Registry, min_stake_satoshis, store_validator,
  get_validator, total_active_stake, add_checkpoint, get_checkpoint, fresh_checkpoint, equivocates,
  has_voted, process_vote, slash_validator, counts,
}
use bitchchain.Finality.Votes.{target_of-found}
use bitchchain.Consensus.{
  recorded, registered, is_checkpoint_height, open_checkpoint, weighted, reply_to, vote_of,
  submit_vote, register_validator,
}

-- A vote of an active validator with stake enough that has already voted for the checkpoint, from
-- the same source, is answered with success and the old total; nothing changes.
pub submit_vote-repeated :
    (now : ℕ) (vote : FinalityVote) (v : ValidatorRecord) (c : Checkpoint) (total : ℕ)
    (reg : Registry)
    → get_validator vote.validator_address reg ≡ some v
    → v.is_active ≡ true
    → min_stake_satoshis ≤ v.stake_satoshis
    → total_active_stake reg ≡ ok total
    → select vote.target_checkpoint reg.checkpoints ≡ some c
    → equivocates (weighted vote v) c.votes ≡ false
    → has_voted (weighted vote v) c.votes ≡ true
    → submit_vote now vote reg ≡ ok ((true, recorded c.total_stake_voted), reg)
unfolding submit_vote vote_of process_vote reply_to get_checkpoint
submit_vote-repeated now vote v c total reg known active rich summed found consistent again =
    let at_target = target_of-found (weighted vote v) reg c found in ground arith

-- A vote of such a validator that names another source than its recorded one slashes it, and is
-- answered with success and the old total.
pub submit_vote-equivocating :
    (now : ℕ) (vote : FinalityVote) (v : ValidatorRecord) (c : Checkpoint) (total : ℕ)
    (reg : Registry)
    → get_validator vote.validator_address reg ≡ some v
    → v.is_active ≡ true
    → min_stake_satoshis ≤ v.stake_satoshis
    → total_active_stake reg ≡ ok total
    → select vote.target_checkpoint reg.checkpoints ≡ some c
    → equivocates (weighted vote v) c.votes ≡ true
    → submit_vote now vote reg
      ≡ ok ((true, recorded c.total_stake_voted), slash_validator vote.validator_address reg)
unfolding submit_vote vote_of process_vote reply_to get_checkpoint slash_validator
submit_vote-equivocating now vote v c total reg known active rich summed found twice =
    let at_target = target_of-found (weighted vote v) reg c found in ground arith

-- Registering an address makes it an active validator that is not slashed, also where it has been
-- slashed before: for any registry, a stake of at least the minimum, and a stake and height that
-- the database can hold.
pub register_validator-unslashes :
    (address txid : Text) (stake : ℕ) (height : ℤ) (reg : Registry)
    → min_stake_satoshis ≤ stake
    → fits_i64 (pos stake) ≡ true
    → fits_i64 height ≡ true
    → (after : Registry) × (v : ValidatorRecord) × (register_validator address
          (pos stake)
          txid
          height
          reg
        ≡ ok ((true, registered), after))
      × (get_validator address after ≡ some v)
      × (counts v ≡ true)
      × (v.stake_satoshis ≡ stake)
unfolding register_validator store_validator get_validator
register_validator-unslashes address txid stake height reg rich fits_stake fits_height =
    let v : ValidatorRecord = record {
      address = address;
      stake_satoshis = stake;
      stake_txid = txid;
      registered_at_height = height;
      is_active = true;
      slashed = false;
    } in
    (
      record reg { validators = replace address v reg.validators },
      v,
      ground arith,
      select-replace address address v reg.validators ∙ rw (beq_refl address),
      refl,
      refl,
    )

-- When a block at a checkpoint height is applied, the checkpoint under its hash is new: whatever
-- votes and finality it had before are gone.
pub open_checkpoint-forgets :
    (block : Block) (reg after : Registry)
    → is_checkpoint_height block.header.height ≡ true
    → open_checkpoint block reg ≡ ok after
    → get_checkpoint block.block_hash after
      ≡ some (fresh_checkpoint block.block_hash block.header.height)
unfolding open_checkpoint add_checkpoint get_checkpoint
open_checkpoint-forgets block reg after due h = ground (
  arith,
  select-replace block.block_hash block.block_hash
      (fresh_checkpoint block.block_hash block.header.height) reg.checkpoints,
  beq_refl block.block_hash,
)
