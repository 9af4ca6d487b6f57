-- ===== src/Tx/Dict.antt =====
-- Blocks as the dictionaries that the chain stores (`to_dict`, lines 99 and 155 of
-- agent/modules/blockchain_core.py) and their reading in `Blockchain.get_block` (lines 284 to 300).
use bitchchain.Base.{
  ℕ, ◌≡◌, refl, [], ◌∷◌, Option, none, some, false, Text, pos, Result, ok, ◌>>=◌, ◌>>◌,
}
use bitchchain.Json.{
  Json, null, bool, int, str, arr, obj, end, field, nil, find, as_int, as_bool, as_str,
  as_optional_str, as_obj, as_arr, as_nat, keywords, argument, argument_or, traverse_items, items,
  traverse_items-items,
}
use bitchchain.Tx.{TxInput, TxOutput, Transaction, BlockHeader, Block}

abbrev nat : ℕ → Json
nat n = int (pos n)

abbrev optional_str : Option Text → Json
optional_str none = null
optional_str (some s) = str s

unfoldable pub input_to_dict : TxInput → Json
input_to_dict i = obj (
    field "prev_txid" (str i.prev_txid) (
      field "prev_vout" (nat i.prev_vout) (
        field "script_sig" (str i.script_sig) (
          field "sequence" (nat i.sequence)
            (field "ct_commitment" (optional_str i.ct_commitment) end)))))

unfoldable pub output_to_dict : TxOutput → Json
output_to_dict o = obj (
    field "value_satoshis" (int o.value_satoshis) (
      field "script_pubkey" (str o.script_pubkey) (
        field "ct_commitment" (optional_str o.ct_commitment)
          (field "ct_range_proof" (optional_str o.ct_range_proof) end))))

-- `Transaction.to_dict`
unfoldable pub tx_to_dict : Transaction → Json
unfolding input_to_dict output_to_dict
tx_to_dict tx = obj (
    field "version" (nat tx.version) (
      field "inputs" (arr (items input_to_dict tx.inputs)) (
        field "outputs" (arr (items output_to_dict tx.outputs)) (
          field "locktime" (nat tx.locktime)
            (field "is_coinbase" (bool tx.is_coinbase) (field "txid" (str tx.txid) end))))))

unfoldable pub header_to_dict : BlockHeader → Json
header_to_dict h = obj (
    field "version" (nat h.version) (
      field "prev_hash" (str h.prev_hash) (
        field "merkle_root" (str h.merkle_root) (
          field "timestamp" (nat h.timestamp) (
            field "bits" (nat h.bits) (
              field "nonce" (nat h.nonce) (
                field "height" (int h.height)
                  (field "validator_vote_hash" (str h.validator_vote_hash) end))))))))

-- `Block.to_dict`
unfoldable pub block_to_dict : Block → Json
unfolding header_to_dict tx_to_dict
block_to_dict b = obj (
    field "header" (header_to_dict b.header) (
      field "transactions" (arr (items tx_to_dict b.transactions))
        (field "block_hash" (str b.block_hash) (field "size_bytes" (nat b.size_bytes) end))))

-- `TxInput(**inp)`
unfoldable pub input_of_dict : Json → Result TxInput
input_of_dict j = do
  fs ← as_obj j
  keywords ("prev_txid" ∷ "prev_vout" ∷ "script_sig" ∷ "sequence" ∷ "ct_commitment" ∷ []) fs
  prev_txid ← as_str (← argument "prev_txid" fs)
  prev_vout ← as_nat (← argument "prev_vout" fs)
  script_sig ← as_str (← argument "script_sig" fs)
  sequence ← as_nat (argument_or (nat 0xFFFFFFFF) "sequence" fs)
  ct_commitment ← as_optional_str (argument_or null "ct_commitment" fs)
  ok (record {
    prev_txid = prev_txid;
    prev_vout = prev_vout;
    script_sig = script_sig;
    sequence = sequence;
    ct_commitment = ct_commitment;
  })

-- `TxOutput(**out)`
unfoldable pub output_of_dict : Json → Result TxOutput
output_of_dict j = do
  fs ← as_obj j
  keywords ("value_satoshis" ∷ "script_pubkey" ∷ "ct_commitment" ∷ "ct_range_proof" ∷ []) fs
  value_satoshis ← as_int (← argument "value_satoshis" fs)
  script_pubkey ← as_str (← argument "script_pubkey" fs)
  ct_commitment ← as_optional_str (argument_or null "ct_commitment" fs)
  ct_range_proof ← as_optional_str (argument_or null "ct_range_proof" fs)
  ok (record {
    value_satoshis = value_satoshis;
    script_pubkey = script_pubkey;
    ct_commitment = ct_commitment;
    ct_range_proof = ct_range_proof;
  })

-- One round of the loop over `data["transactions"]`.
unfoldable pub tx_of_dict : Json → Result Transaction
unfolding input_of_dict output_of_dict
tx_of_dict j = do
  fs ← as_obj j
  inputs ← traverse_items input_of_dict (← as_arr (argument_or (arr nil) "inputs" fs))
  outputs ← traverse_items output_of_dict (← as_arr (argument_or (arr nil) "outputs" fs))
  version ← as_nat (← find "version" fs)
  locktime ← as_nat (← find "locktime" fs)
  is_coinbase ← as_bool (argument_or (bool false) "is_coinbase" fs)
  txid ← as_str (← find "txid" fs)
  ok (record {
    version = version;
    inputs = inputs;
    outputs = outputs;
    locktime = locktime;
    is_coinbase = is_coinbase;
    txid = txid;
  })

-- `BlockHeader(**data["header"])`
unfoldable pub header_of_dict : Json → Result BlockHeader
header_of_dict j = do
  fs ← as_obj j
  keywords
      ("version" ∷ "prev_hash" ∷ "merkle_root" ∷ "timestamp" ∷ "bits" ∷ "nonce" ∷ "height"
        ∷ "validator_vote_hash" ∷ [])
      fs
  version ← as_nat (← argument "version" fs)
  prev_hash ← as_str (← argument "prev_hash" fs)
  merkle_root ← as_str (← argument "merkle_root" fs)
  timestamp ← as_nat (← argument "timestamp" fs)
  bits ← as_nat (← argument "bits" fs)
  nonce ← as_nat (← argument "nonce" fs)
  height ← as_int (argument_or (nat 0) "height" fs)
  validator_vote_hash ← as_str (argument_or (str []) "validator_vote_hash" fs)
  ok (record {
    version = version;
    prev_hash = prev_hash;
    merkle_root = merkle_root;
    timestamp = timestamp;
    bits = bits;
    nonce = nonce;
    height = height;
    validator_vote_hash = validator_vote_hash;
  })

-- The body of `get_block` behind `json.loads`.
unfoldable pub block_of_dict : Json → Result Block
unfolding header_of_dict tx_of_dict
block_of_dict j = do
  fs ← as_obj j
  header ← header_of_dict (← find "header" fs)
  transactions ← traverse_items tx_of_dict (← as_arr (← find "transactions" fs))
  block_hash ← as_str (← find "block_hash" fs)
  size_bytes ← as_nat (← find "size_bytes" fs)
  ok (record {
    header = header;
    transactions = transactions;
    block_hash = block_hash;
    size_bytes = size_bytes;
  })

as_optional_str-optional_str : (o : Option Text) → as_optional_str (optional_str o) ≡ ok o
unfolding as_optional_str
as_optional_str-optional_str none = refl
as_optional_str-optional_str (some s) = refl

input_of_dict-input_to_dict : (i : TxInput) → input_of_dict (input_to_dict i) ≡ ok i
unfolding input_of_dict input_to_dict as_obj keywords argument argument_or as_str as_nat
input_of_dict-input_to_dict i = rw (as_optional_str-optional_str i.ct_commitment)

output_of_dict-output_to_dict : (o : TxOutput) → output_of_dict (output_to_dict o) ≡ ok o
unfolding output_of_dict output_to_dict as_obj keywords argument argument_or as_str as_int
output_of_dict-output_to_dict o =
    rw (as_optional_str-optional_str o.ct_commitment, as_optional_str-optional_str o.ct_range_proof)

tx_of_dict-tx_to_dict : (tx : Transaction) → tx_of_dict (tx_to_dict tx) ≡ ok tx
unfolding tx_of_dict tx_to_dict as_obj as_arr find argument_or as_str as_nat as_bool
tx_of_dict-tx_to_dict tx = rw (
  traverse_items-items input_to_dict input_of_dict tx.inputs input_of_dict-input_to_dict,
  traverse_items-items output_to_dict output_of_dict tx.outputs output_of_dict-output_to_dict,
)

header_of_dict-header_to_dict : (h : BlockHeader) → header_of_dict (header_to_dict h) ≡ ok h
unfolding header_of_dict header_to_dict as_obj keywords argument argument_or as_str as_nat as_int
header_of_dict-header_to_dict h = refl

-- Reading the dictionary of a block gives the block back, whatever it holds.
pub block_of_dict-block_to_dict : (b : Block) → block_of_dict (block_to_dict b) ≡ ok b
unfolding block_of_dict block_to_dict as_obj as_arr find as_str as_nat
block_of_dict-block_to_dict b = rw (
  header_of_dict-header_to_dict b.header,
  traverse_items-items tx_to_dict tx_of_dict b.transactions tx_of_dict-tx_to_dict,
)
