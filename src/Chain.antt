-- ===== src/Chain.antt =====
-- `class Blockchain` of agent/modules/blockchain_core.py (lines 226 to 422): validation of a block,
-- its application, the stored blocks, the tip, and the difficulty of the next block.
-- SHA-256, the form of stored JSON and the clock are parameters.
pub mod Accept
pub mod Apply
pub mod Committed
pub mod Leak
pub mod Invariant
use bitchchain.Base.{
  ℕ, suc, ◌+◌, ◌*◌, ◌/◌, ◌%◌, ◌≡◌, Bool, true, false, not, Option, none, some, List, [], ◌∷◌,
  length, ℤ, pos, negsuc, sub_ℕ, ◌-ℤ◌, max_ℤ, min_ℤ, ltb_ℤ, ltb, leb, ◌==◌, if◌then◌else◌, Text,
  Bytes, text_beq, text_eq, Table, select, replace, Result, ok, err, Error, value_error,
  overflow_error, ◌>>=◌, traverse, pos_part,
}
use bitchchain.Pow.{
  Target, whole, fraction, bits_to_target, target_to_bits, genesis_bits,
  difficulty_adjustment_blocks, target_block_time_sec,
}
use bitchchain.Json.{Codec, arr, items}
use bitchchain.Tx.{
  TxInput, TxOutput, Transaction, BlockHeader, Block, header_hash, meets_target, compute_txid,
}
use bitchchain.Tx.Dict.{tx_to_dict, block_to_dict, block_of_dict}
use bitchchain.Tx.Merkle.{compute_merkle_root}
use bitchchain.Utxo.{
  Utxos, UtxoSet, all_committed, UtxoCall, ◌>>>◌, fits_i64, spend_input, add_outputs, utxo_count,
}

abbrev pub max_block_size_bytes : ℕ
max_block_size_bytes = 4 * 1024 * 1024

-- A row of the table `blocks`, behind its key, the hash.
pub record BlockRow (Raw : Type 0) : Type 0 where
  pub height : ℤ
  pub prev_hash : Text
  pub timestamp : ℕ
  pub bits : ℕ
  pub nonce : ℕ
  pub merkle_root : Text
  pub tx_count : ℕ
  pub size_bytes : ℕ
  pub raw_json : Raw

-- The database (`utxos`, `blocks`, the row `tip_hash` of `chain_meta`) and the two fields in memory.
pub record Chain (Raw : Type 0) : Type 0 where
  pub utxo_set : UtxoSet
  pub blocks : Table Text (BlockRow Raw)
  pub meta_tip : Option Text
  pub chain_tip : Option Text
  pub height : ℤ

-- The second component of what `validate_block` returns.
pub data Verdict : Type 0 where
  valid : Verdict
  pow_not_met : Verdict
  size_exceeded : Verdict
  merkle_mismatch : Verdict
  timestamp_too_far : Verdict
  prev_hash_mismatch : Verdict
  no_coinbase : Verdict

abbrev pub is_valid : Verdict → Bool
is_valid valid = true
is_valid v = false

-- `not block.transactions or not block.transactions[0].is_coinbase`
abbrev pub lacks_coinbase : List Transaction → Bool
lacks_coinbase [] = true
lacks_coinbase (tx ∷ txs) = not tx.is_coinbase

-- `prev_block and block.header.prev_hash != prev_block.block_hash`
abbrev pub prev_differs : BlockHeader → Option Block → Bool
prev_differs header none = false
prev_differs header (some prev) = not (text_beq header.prev_hash prev.block_hash)

-- `_load_tip`, on what is committed in the database.
unfoldable pub load_tip :
    {Raw : Type 0} → Utxos → Table Text (BlockRow Raw) → Option Text → Chain Raw
load_tip utxos blocks none = record {
  utxo_set = all_committed utxos;
  blocks = blocks;
  meta_tip = none;
  chain_tip = none;
  height = negsuc 0;
}
load_tip utxos blocks (some tip) = record {
  utxo_set = all_committed utxos;
  blocks = blocks;
  meta_tip = some tip;
  chain_tip = some tip;
  height = elim (select tip blocks) [ none ↦ negsuc 0 | some row ↦ row.height ];
}

-- The inputs of one transaction, in the loop of `apply_block`.
unfoldable pub spend_all : List TxInput → UtxoCall (Unit {0})
spend_all [] u = (ok tt, u)
spend_all (inp ∷ inps) u =
    let (spent, u') = spend_input inp.prev_txid inp.prev_vout u in
    let rest = spend_all inps u' in
    elim spent [
      | err e ↦ (err e, u')
      | ok o ↦ elim o [ none ↦ (err value_error, u') | some out ↦ rest ]
    ]

unfoldable pub apply_tx : ℤ → Transaction → UtxoCall (Unit {0})
apply_tx height tx =
    if tx.is_coinbase then add_outputs tx height else spend_all tx.inputs >>> add_outputs tx height

unfoldable pub apply_txs : ℤ → List Transaction → UtxoCall (Unit {0})
apply_txs height [] u = (ok tt, u)
apply_txs height (tx ∷ txs) u = (apply_tx height tx >>> apply_txs height txs) u

-- The checks behind the Merkle root.
unfoldable pub late_checks : ℕ → Block → Option Block → Verdict
late_checks now block prev =
    if ltb (now + 7200) block.header.timestamp
    then timestamp_too_far
    else if prev_differs block.header prev
    then prev_hash_mismatch
    else if lacks_coinbase block.transactions
    then no_coinbase
    else valid

-- The comparison of the computed Merkle root, over the block with its ids filled in.
unfoldable pub compare_root : ℕ → Block → Option Block → List Transaction → Text → Verdict × Block
compare_root now sized prev txs root =
    let filled = record sized { transactions = txs } in
    (
      (if text_beq root sized.header.merkle_root
          then late_checks now filled prev
          else merkle_mismatch),
      filled,
    )

module _ (sha256 : Bytes → Bytes) where
  -- `if not tx.txid: tx.txid = tx.compute_txid()`
  unfoldable pub fill_txid : Transaction → Result Transaction
  fill_txid tx = elim tx.txid [
    | [] ↦ compute_txid sha256 tx >>= λ txid. ok (record tx { txid = txid })
    | c ∷ cs ↦ ok tx
  ]

  -- `validate_block` behind the size check: the ids, the Merkle root and the late checks.
  unfoldable pub check_transactions : ℕ → Block → Option Block → Result (Verdict × Block)
  check_transactions now sized prev = traverse fill_txid sized.transactions >>= λ txs.
      compute_merkle_root sha256 txs >>= λ root. ok (compare_root now sized prev txs root)

module _ (codec : Codec) where
  open codec use {Raw, dumps, loads, size}

  unfoldable pub get_block : Chain Raw → Text → Result (Option Block)
  get_block chain hash = elim (select hash chain.blocks) [
    | none ↦ ok none
    | some row ↦ loads row.raw_json >>= λ j. block_of_dict j >>= λ b. ok (some b)
  ]

  -- `Block.validate_size`: the length of the transactions' JSON, kept in the block.
  unfoldable pub measured_size : List Transaction → ℕ
  measured_size txs = size (dumps (arr (items tx_to_dict txs)))

  -- The previous block that `apply_block` hands to the validation.
  unfoldable pub tip_block : Chain Raw → Result (Option Block)
  tip_block chain = elim chain.chain_tip [ none ↦ ok none | some tip ↦ get_block chain tip ]

  unfoldable pub block_row : Block → BlockRow Raw
  block_row block = record {
    height = block.header.height;
    prev_hash = block.header.prev_hash;
    timestamp = block.header.timestamp;
    bits = block.header.bits;
    nonce = block.header.nonce;
    merkle_root = block.header.merkle_root;
    tx_count = length block.transactions;
    size_bytes = block.size_bytes;
    raw_json = dumps (block_to_dict block);
  }

  -- The `try` block: spend and add, store, move the tip; any exception is `false`. The set of
  -- unspent outputs stays as the failing call left it.
  unfoldable pub connect_block : Block → Chain Raw → Bool × Chain Raw
  connect_block block chain =
      let (result, utxos) = apply_txs block.header.height block.transactions chain.utxo_set in
      let touched = record chain { utxo_set = utxos } in
      elim result [
        | err e ↦ (false, touched)
        | ok a ↦
            if fits_i64 block.header.height
            then (
              true,
              record {
                utxo_set = utxos;
                blocks = replace block.block_hash (block_row block) chain.blocks;
                meta_tip = some block.block_hash;
                chain_tip = some block.block_hash;
                height = block.header.height;
              },
            )
            else (false, touched)
      ]

  -- `apply_block` behind the validation.
  unfoldable pub conclude : Chain Raw → Verdict × Block → Bool × Block × Chain Raw
  conclude chain (verdict, checked) =
      let connected = connect_block checked chain in
      if is_valid verdict then (connected.0, checked, connected.1) else (false, checked, chain)

module _ (sha256 : Bytes → Bytes) (codec : Codec) where
  open codec use {Raw}

  -- `validate_block` behind the hash and the comparison with the target.
  unfoldable pub check_size : ℕ → Block → Option Block → Text → Bool → Result (Verdict × Block)
  check_size now block prev hash enough_work =
      let hashed = record block { block_hash = hash } in
      let sized = record hashed { size_bytes = measured_size codec block.transactions } in
      if not enough_work
      then ok (pow_not_met, hashed)
      else if leb (measured_size codec block.transactions) max_block_size_bytes
      then check_transactions sha256 now sized prev
      else ok (size_exceeded, sized)

  -- `validate_block`. It writes the hash, the size and missing ids into the block.
  unfoldable pub validate_block : ℕ → Block → Option Block → Result (Verdict × Block)
  validate_block now block prev = header_hash sha256 block.header >>= λ hash.
      meets_target sha256 block.header >>= λ enough_work. check_size now block prev hash enough_work

  -- `apply_block`: its answer, the block as the validation left it, and the chain.
  unfoldable pub apply_block : ℕ → Block → Chain Raw → Result (Bool × Block × Chain Raw)
  apply_block now block chain = tip_block codec chain >>= λ prev.
      validate_block now block prev >>= λ validated. ok (conclude codec chain validated)

abbrev same_height : ℤ → ℤ → Bool
same_height (pos m) (pos n) = m == n
same_height (negsuc m) (negsuc n) = m == n
same_height a b = false

-- `get_block_at_height`: the first row in the order of row ids.
unfoldable pub get_block_at_height : {Raw : Type 0} → ℤ → Table Text (BlockRow Raw) → Option Text
get_block_at_height height [] = none
get_block_at_height height ((hash, row) ∷ rows) =
    if same_height row.height height then some hash else get_block_at_height height rows

abbrev pub target_timespan : ℕ
target_timespan = difficulty_adjustment_blocks * target_block_time_sec

-- The seconds between the two blocks, kept within a quarter and four times the target.
unfoldable pub clamped_timespan : ℕ → ℕ → ℕ
clamped_timespan tip_time past_time = pos_part (
    min_ℤ (max_ℤ (sub_ℕ tip_time past_time) (pos (target_timespan / 4)))
      (pos (target_timespan * 4)))

-- The new target and its bits. A float target ends in the `ValueError` of its hexadecimal format.
unfoldable pub retarget : ℕ → ℕ → Result ℕ
retarget past_bits timespan = elim (bits_to_target past_bits) [
  | whole old ↦ target_to_bits (old * timespan / target_timespan)
  | fraction c k ↦ err value_error
]

module _ {Raw : Type 0} where
  -- The bits of a row, or the default where there is none.
  abbrev row_bits : Option (BlockRow Raw) → ℕ
  row_bits none = genesis_bits
  row_bits (some row) = row.bits

  abbrev tip_row : Chain Raw → Option (BlockRow Raw)
  tip_row chain = elim chain.chain_tip [ none ↦ none | some tip ↦ select tip chain.blocks ]

  -- The part of `get_next_bits` behind the two early returns.
  unfoldable pub retarget_from : Option (BlockRow Raw) → Option (BlockRow Raw) → Result ℕ
  retarget_from none tip = ok genesis_bits
  retarget_from (some past) none = ok genesis_bits
  retarget_from (some past) (some tip) =
      retarget past.bits (clamped_timespan tip.timestamp past.timestamp)

  unfoldable pub get_next_bits : Chain Raw → Result ℕ
  get_next_bits chain =
      if ltb_ℤ chain.height (pos difficulty_adjustment_blocks)
      then ok genesis_bits
      else if not (pos_part chain.height % difficulty_adjustment_blocks == 0)
      then ok (row_bits (tip_row chain))
      else elim (get_block_at_height (chain.height -ℤ pos difficulty_adjustment_blocks)
          chain.blocks) [
            | none ↦ ok genesis_bits
            | some past ↦ retarget_from (select past chain.blocks) (tip_row chain)
          ]

  -- `chain_info`: the height, the tip and the number of unspent outputs.
  unfoldable pub chain_info : Chain Raw → ℤ × Option Text × ℕ
  chain_info chain = (chain.height, chain.chain_tip, utxo_count chain.utxo_set)
