-- ===== src/Consensus.antt =====
-- `class HybridConsensus` of agent/modules/consensus_engine.py (lines 291 to 370): blocks, votes and
-- validators as they come in from outside. The messages are their kinds and the numbers in them.
pub mod Finalizing
pub mod Replies
use bitchchain.Base.{
  ℕ, suc, ◌+◌, ◌*◌, ◌/◌, ◌%◌, ◌-◌, ◌≡◌, Bool, true, false, not, ◌&&◌, ◌||◌, Option, none, some,
  List, [], ◌∷◌, length, ℤ, pos, negsuc, ltb, ◌==◌, if◌then◌else◌, Text, Bytes, select, text_eq,
  Result, ok, err, attribute_error, or_raise, ◌>>=◌,
}
use bitchchain.Json.{Codec}
use bitchchain.Tx.{Block}
use bitchchain.Chain.{Chain, apply_block, get_block_at_height}
use bitchchain.Finality.{
  ValidatorRecord, FinalityVote, Checkpoint, Registry, min_stake_satoshis, checkpoint_interval,
  store_validator, get_validator, get_active_validators, total_active_stake, add_checkpoint,
  get_checkpoint, fresh_checkpoint, process_vote,
}

pub data Reply : Type 0 where
  not_registered : Reply
  insufficient_stake : ℕ → Reply
  finalized : Reply
  recorded : ℕ → Reply
  below_minimum : Reply
  registered : Reply

-- `height % CHECKPOINT_INTERVAL == 0`, also for a negative height.
abbrev pub is_checkpoint_height : ℤ → Bool
is_checkpoint_height (pos n) = n % checkpoint_interval == 0
is_checkpoint_height (negsuc n) = suc n % checkpoint_interval == 0

-- The checkpoint that an applied block opens.
unfoldable pub open_checkpoint : Block → Registry → Result Registry
open_checkpoint block reg =
    if is_checkpoint_height block.header.height
    then add_checkpoint (fresh_checkpoint block.block_hash block.header.height) reg
    else ok reg

module _ (sha256 : Bytes → Bytes) (codec : Codec) where
  open codec use {Raw}

  -- The answer, the block as the validation left it, the chain and the registry.
  unfoldable pub submit_block :
      ℕ → Block → Chain Raw → Registry → Result (Bool × Block × Chain Raw × Registry)
  submit_block now block chain reg = apply_block sha256 codec now block chain >>= λ out.
      let opened = open_checkpoint out.1 reg >>= λ reg'. ok (true, out.1, out.2, reg') in
      if out.0 then opened else ok (false, out.1, out.2, reg)

-- The guards of `submit_vote` and the vote with the validator's stake as its weight.
abbrev pub weighted : FinalityVote → ValidatorRecord → FinalityVote
weighted vote v = record vote { stake_weight = v.stake_satoshis }

-- The reply to a vote that went through `process_vote`, whatever that answered.
unfoldable pub reply_to : Text → Bool × Registry → Result ((Bool × Reply) × Registry)
reply_to hash (true, reg) = ok ((true, finalized), reg)
reply_to hash (false, reg) = or_raise (get_checkpoint hash reg) attribute_error >>= λ c.
    ok ((true, recorded c.total_stake_voted), reg)

unfoldable pub vote_of :
    ℕ → FinalityVote → ValidatorRecord → Registry → Result ((Bool × Reply) × Registry)
vote_of now vote v reg =
    if not v.is_active
    then ok ((false, not_registered), reg)
    else if ltb v.stake_satoshis min_stake_satoshis
    then ok ((false, insufficient_stake v.stake_satoshis), reg)
    else (total_active_stake reg >>= λ total.
        process_vote now (weighted vote v) total reg >>= λ out. reply_to vote.target_checkpoint out)

unfoldable pub submit_vote : ℕ → FinalityVote → Registry → Result ((Bool × Reply) × Registry)
submit_vote now vote reg = elim (get_validator vote.validator_address reg) [
  | none ↦ ok ((false, not_registered), reg)
  | some v ↦ vote_of now vote v reg
]

-- `HybridConsensus.register_validator`; any integer may come in as the stake.
unfoldable pub register_validator :
    Text → ℤ → Text → ℤ → Registry → Result ((Bool × Reply) × Registry)
register_validator address (negsuc n) txid height reg = ok ((false, below_minimum), reg)
register_validator address (pos stake) txid height reg =
    let stored =
      store_validator
        (record {
          address = address;
          stake_satoshis = stake;
          stake_txid = txid;
          registered_at_height = height;
          is_active = true;
          slashed = false;
        })
        reg
      >>= λ reg'. ok ((true, registered), reg') in
    if ltb stake min_stake_satoshis then ok ((false, below_minimum), reg) else stored

-- `consensus_status`: the height, the tip, the active validators, their stake, the height of the last
-- checkpoint, and whether that is finalized.
pub record ConsensusStatus : Type 0 where
  pub chain_height : ℤ
  pub tip_hash : Option Text
  pub active_validators : ℕ
  pub total_stake_satoshis : ℕ
  pub last_checkpoint_height : ℤ
  pub last_checkpoint_finalized : Bool

-- `(height // CHECKPOINT_INTERVAL) * CHECKPOINT_INTERVAL`, rounding down.
abbrev pub last_checkpoint : ℤ → ℤ
last_checkpoint (pos n) = pos (n / checkpoint_interval * checkpoint_interval)
last_checkpoint (negsuc n) =
    negsuc (n / checkpoint_interval * checkpoint_interval + checkpoint_interval - 1)

unfoldable pub checkpoint_final : Option Text → Registry → Bool
checkpoint_final none reg = false
checkpoint_final (some hash) reg = elim (get_checkpoint hash reg) [
  | none ↦ false
  | some c ↦ c.is_finalized
]

unfoldable pub consensus_status : {Raw : Type 0} → Chain Raw → Registry → Result ConsensusStatus
consensus_status chain reg = total_active_stake reg >>= λ total. ok (record {
  chain_height = chain.height;
  tip_hash = chain.chain_tip;
  active_validators = length (get_active_validators reg);
  total_stake_satoshis = total;
  last_checkpoint_height = last_checkpoint chain.height;
  last_checkpoint_finalized =
      checkpoint_final (get_block_at_height (last_checkpoint chain.height) chain.blocks) reg;
})
