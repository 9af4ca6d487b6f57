-- ===== src/Tx.antt =====
-- The data of agent/modules/blockchain_core.py: transactions, block headers and blocks (lines 46 to
-- 161), their serialised form and their JSON dictionaries.
pub mod Dict
pub mod Merkle
use bitchchain.Base.{
  ℕ, ◌^◌, Bool, Option, List, [], ◌∷◌, ◌++◌, reverse, length, ℤ, pos, negsuc, ◌+ℤ◌, ltb,
  if◌then◌else◌, Text, Bytes, hex, from_hex, int_hex, pack, le_bytes, Result, ok, err, struct_error,
  ◌>>=◌, ◌-◌,
}
use bitchchain.Pow.{bits_to_target, below_target}

-- Counts and times that `struct.pack` takes as unsigned words are naturals; a negative one, which
-- it refuses, is not represented. Values and heights are signed, as in the source.
pub record TxInput : Type 0 where
  pub prev_txid : Text
  pub prev_vout : ℕ
  pub script_sig : Text
  pub sequence : ℕ
  pub ct_commitment : Option Text

pub record TxOutput : Type 0 where
  pub value_satoshis : ℤ
  pub script_pubkey : Text
  pub ct_commitment : Option Text
  pub ct_range_proof : Option Text

pub record Transaction : Type 0 where
  pub version : ℕ
  pub inputs : List TxInput
  pub outputs : List TxOutput
  pub locktime : ℕ
  pub is_coinbase : Bool
  pub txid : Text

pub record BlockHeader : Type 0 where
  pub version : ℕ
  pub prev_hash : Text
  pub merkle_root : Text
  pub timestamp : ℕ
  pub bits : ℕ
  pub nonce : ℕ
  pub height : ℤ
  pub validator_vote_hash : Text

pub record Block : Type 0 where
  pub header : BlockHeader
  pub transactions : List Transaction
  pub block_hash : Text
  pub size_bytes : ℕ

-- `struct.pack("<q", value)`: eight bytes in two's complement.
unfoldable pub pack_i64 : ℤ → Result Bytes
pack_i64 (pos n) = if ltb n (2 ^ 63) then ok (le_bytes 8 n) else err struct_error
pack_i64 (negsuc n) = if ltb n (2 ^ 63) then ok (le_bytes 8 (2 ^ 64 - 1 - n)) else err struct_error

-- `struct.pack("<B", len(script)) + script`
unfoldable pub pack_script : Text → Result Bytes
pack_script script = from_hex script >>= λ bytes. pack 1 (length bytes) >>= λ len. ok (len ++ bytes)

unfoldable pub serialize_input : TxInput → Result Bytes
unfolding pack_script
serialize_input inp = from_hex inp.prev_txid >>= λ prev. pack 4 inp.prev_vout >>= λ vout.
    pack_script inp.script_sig >>= λ script.
    pack 4 inp.sequence >>= λ sequence. ok (reverse prev ++ (vout ++ (script ++ sequence)))

unfoldable pub serialize_output : TxOutput → Result Bytes
unfolding pack_script pack_i64
serialize_output out = pack_i64 out.value_satoshis >>= λ value.
    pack_script out.script_pubkey >>= λ script. ok (value ++ script)

-- A loop that appends one part for each element, and stops at the first part that raises.
unfoldable pub concat_parts : {A : Type 0} → (A → Result Bytes) → List A → Result Bytes
concat_parts f [] = ok []
concat_parts f (x ∷ xs) = f x >>= λ part. concat_parts f xs >>= λ rest. ok (part ++ rest)

-- `Transaction.serialize_for_signing`
unfoldable pub serialize_for_signing : Transaction → Result Bytes
unfolding serialize_input serialize_output concat_parts
serialize_for_signing tx = pack 4 tx.version >>= λ version.
    pack 1 (length tx.inputs) >>= λ input_count.
    concat_parts serialize_input tx.inputs >>= λ inputs.
    pack 1 (length tx.outputs) >>= λ output_count.
    concat_parts serialize_output tx.outputs >>= λ outputs. pack 4 tx.locktime >>= λ locktime.
    ok (version ++ (input_count ++ (inputs ++ (output_count ++ (outputs ++ locktime)))))

-- `Transaction.total_output_satoshis`
unfoldable pub sum_outputs : ℤ → List TxOutput → ℤ
sum_outputs acc [] = acc
sum_outputs acc (o ∷ os) = sum_outputs (acc +ℤ o.value_satoshis) os

unfoldable pub total_output_satoshis : Transaction → ℤ
unfolding sum_outputs
total_output_satoshis tx = sum_outputs (pos 0) tx.outputs

-- `BlockHeader.serialize`: the height and the vote hash are not part of it.
unfoldable pub serialize : BlockHeader → Result Bytes
serialize header = pack 4 header.version >>= λ version. from_hex header.prev_hash >>= λ prev.
    from_hex header.merkle_root >>= λ root. pack 4 header.timestamp >>= λ timestamp.
    pack 4 header.bits >>= λ bits. pack 4 header.nonce >>= λ nonce.
    ok (version ++ (reverse prev ++ (reverse root ++ (timestamp ++ (bits ++ nonce)))))

-- SHA-256 is the standard library's: a parameter. `sha256d` applies it twice.
module _ (sha256 : Bytes → Bytes) where
  unfoldable pub sha256d : Bytes → Bytes
  sha256d data_bytes = sha256 (sha256 data_bytes)

  unfoldable pub compute_txid : Transaction → Result Text
  unfolding sha256d
  compute_txid tx = serialize_for_signing tx >>= λ raw. ok (hex (sha256d raw))

  -- `BlockHeader.hash`
  unfoldable pub header_hash : BlockHeader → Result Text
  unfolding sha256d
  header_hash header = serialize header >>= λ raw. ok (hex (sha256d raw))

  unfoldable pub meets_target : BlockHeader → Result Bool
  meets_target header = header_hash header >>= λ hash.
      int_hex hash >>= λ hash_int. ok (below_target hash_int (bits_to_target header.bits))
