-- ===== src/Finality.antt =====
-- The validator registry and the finality votes: `ValidatorRecord`, `FinalityVote`, `Checkpoint` and
-- `class ValidatorRegistry` of agent/modules/consensus_engine.py (lines 31 to 195).
pub mod Threshold
pub mod Votes
pub mod Slashing
use bitchchain.Base.{
  ℕ, ◌+◌, ◌*◌, ◌^◌, ◌≤◌, ◌<◌, ◌≡◌, Bool, true, false, not, ◌&&◌, Option, none, some, List, [], ◌∷◌,
  ◌++◌, ℤ, pos, ltb, leb, if◌then◌else◌, Text, text_beq, text_eq, Table, select, replace, update,
  Result, ok, err, overflow_error, database_error, ◌>>=◌, guard, ◌>>◌,
}
use bitchchain.Utxo.{fits_i64}

abbrev pub min_stake_satoshis : ℕ
min_stake_satoshis = 32 * 100_000_000

abbrev pub checkpoint_interval : ℕ
checkpoint_interval = 100

-- Stakes are naturals: the only caller refuses a stake below the minimum.
pub record ValidatorRecord : Type 0 where
  pub address : Text
  pub stake_satoshis : ℕ
  pub stake_txid : Text
  pub registered_at_height : ℤ
  pub is_active : Bool
  pub slashed : Bool

pub record FinalityVote : Type 0 where
  pub validator_address : Text
  pub source_checkpoint : Text
  pub target_checkpoint : Text
  pub stake_weight : ℕ
  pub signature : Text
  pub timestamp : ℕ

pub record Checkpoint : Type 0 where
  pub block_hash : Text
  pub height : ℤ
  pub total_stake_voted : ℕ
  pub votes : List FinalityVote
  pub is_finalized : Bool
  pub finalized_at : Option ℕ

-- The tables `validators` and `checkpoints`. A row of votes is JSON in the database, written and
-- read by this class alone, and stands here as the list itself.
pub record Registry : Type 0 where
  pub validators : Table Text ValidatorRecord
  pub checkpoints : Table Text Checkpoint

-- `voted / total >= FINALITY_THRESHOLD`, in floats. The threshold is 6004799503160661 / 2 ^ 53, and
-- the quotient is rounded to the nearest float, a tie going to the even neighbour, which is the one
-- below the threshold. So the test is that the exact quotient lies above the midpoint
-- 12009599006321321 / 2 ^ 54.
unfoldable pub reaches_threshold : ℕ → ℕ → Bool
reaches_threshold voted total = ltb (12009599006321321 * total) (voted * 2 ^ 54)

-- `ValidatorRegistry.register_validator`: INSERT OR REPLACE of the whole record.
unfoldable pub store_validator : ValidatorRecord → Registry → Result Registry
store_validator v reg =
    if fits_i64 (pos v.stake_satoshis) && fits_i64 v.registered_at_height
    then ok (record reg { validators = replace v.address v reg.validators })
    else err overflow_error

unfoldable pub get_validator : Text → Registry → Option ValidatorRecord
get_validator address reg = select address reg.validators

-- WHERE is_active=1 AND slashed=0
abbrev pub counts : ValidatorRecord → Bool
counts v = v.is_active && not v.slashed

unfoldable pub active_rows : Table Text ValidatorRecord → List ValidatorRecord
active_rows [] = []
active_rows ((k, v) ∷ rows) = if counts v then v ∷ active_rows rows else active_rows rows

unfoldable pub get_active_validators : Registry → List ValidatorRecord
unfolding active_rows
get_active_validators reg = active_rows reg.validators

unfoldable pub sum_stakes : Table Text ValidatorRecord → ℕ
sum_stakes [] = 0
sum_stakes ((k, v) ∷ rows) = (if counts v then v.stake_satoshis else 0) + sum_stakes rows

-- SELECT SUM(…), which raises where the sum leaves 64 bits.
unfoldable pub total_active_stake : Registry → Result ℕ
unfolding sum_stakes
total_active_stake reg =
    let total = sum_stakes reg.validators in
    if ltb total (2 ^ 63) then ok total else err database_error

abbrev pub slash : ValidatorRecord → ValidatorRecord
slash v = record v { slashed = true; is_active = false }

unfoldable pub slash_validator : Text → Registry → Registry
slash_validator address reg = record reg { validators = update address slash reg.validators }

unfoldable pub add_checkpoint : Checkpoint → Registry → Result Registry
add_checkpoint c reg =
    if fits_i64 (pos c.total_stake_voted) && fits_i64 c.height
    then ok (record reg { checkpoints = replace c.block_hash c reg.checkpoints })
    else err overflow_error

unfoldable pub get_checkpoint : Text → Registry → Option Checkpoint
get_checkpoint hash reg = select hash reg.checkpoints

-- A new `Checkpoint(block_hash=…, height=…)`.
abbrev pub fresh_checkpoint : Text → ℤ → Checkpoint
fresh_checkpoint hash height = record {
  block_hash = hash;
  height = height;
  total_stake_voted = 0;
  votes = [];
  is_finalized = false;
  finalized_at = none;
}

-- Some recorded vote of the same validator names another source.
unfoldable pub equivocates : FinalityVote → List FinalityVote → Bool
equivocates vote [] = false
equivocates vote (v ∷ vs) =
    if text_beq v.validator_address vote.validator_address
      && not (text_beq v.source_checkpoint vote.source_checkpoint)
    then true
    else equivocates vote vs

unfoldable pub has_voted : FinalityVote → List FinalityVote → Bool
has_voted vote [] = false
has_voted vote (v ∷ vs) =
    if text_beq v.validator_address vote.validator_address then true else has_voted vote vs

-- The vote appended, its weight added, and the checkpoint finalized where the test now passes.
unfoldable pub count_vote : ℕ → FinalityVote → ℕ → Checkpoint → Checkpoint
count_vote now vote total_stake c =
    let voted = c.total_stake_voted + vote.stake_weight in
    let counted = record c { votes = c.votes ++ vote ∷ []; total_stake_voted = voted } in
    if not c.is_finalized && ltb 0 total_stake && reaches_threshold voted total_stake
    then record counted { is_finalized = true; finalized_at = some now }
    else counted

-- The checkpoint that a vote is for: the stored one, or a new one at height 0.
unfoldable pub target_of : FinalityVote → Registry → Checkpoint
target_of vote reg = elim (select vote.target_checkpoint reg.checkpoints) [
  | none ↦ fresh_checkpoint vote.target_checkpoint (pos 0)
  | some c ↦ c
]

unfoldable pub process_vote : ℕ → FinalityVote → ℕ → Registry → Result (Bool × Registry)
process_vote now vote total_stake reg =
    let c = target_of vote reg in
    let counted = count_vote now vote total_stake c in
    if equivocates vote c.votes
    then ok (false, slash_validator vote.validator_address reg)
    else if has_voted vote c.votes
    then ok (false, reg)
    else add_checkpoint counted reg >>= λ reg'. ok (counted.is_finalized, reg')
