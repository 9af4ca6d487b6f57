-- ===== src/Tests.antt =====
-- Concrete values that the modules below try the library on: a digest that is always zero, a
-- store of JSON values as they are, a coinbase, a block and a registry.
pub mod Blocks
pub mod Votes
pub mod Peers
pub mod Numbers
pub mod Privacy
pub mod Agents
pub mod Runs
pub mod Crawls
pub mod Miners
use bitchchain.Base.{
  ℕ, List, [], ◌∷◌, Bytes, Text, text, pos, none, some, replicate, true, false, Result, ok, ◌++◌,
}
use bitchchain.Json.{Json, Codec}
use bitchchain.Tx.{TxInput, TxOutput, Transaction, BlockHeader, Block}
use bitchchain.Chain.{Chain}

abbrev pub zero_sha : Bytes → Bytes
zero_sha bytes = replicate 32 0

abbrev pub json_store : Codec
json_store = record { Raw = Json; dumps = λ j. j; loads = λ j. ok j; size = λ j. 100 }

abbrev pub miner_output : TxOutput
miner_output = record {
  value_satoshis = pos 5_000_000_000;
  script_pubkey = text "76a9";
  ct_commitment = none;
  ct_range_proof = none;
}

abbrev pub reward : Transaction
reward = record {
  version = 1;
  inputs = [];
  outputs = miner_output ∷ [];
  locktime = 0;
  is_coinbase = true;
  txid = text "aa";
}

abbrev pub zero_digest : Text
zero_digest = replicate 64 48

abbrev pub first_header : BlockHeader
first_header = record {
  version = 1;
  prev_hash = text "00";
  merkle_root = text "aa";
  timestamp = 1000;
  bits = 0x1d00ffff;
  nonce = 0;
  height = pos 0;
  validator_vote_hash = [];
}

abbrev pub first_block : Block
first_block = record {
  header = first_header;
  transactions = reward ∷ [];
  block_hash = [];
  size_bytes = 0;
}

abbrev pub first_checked : Block
first_checked = record first_block { block_hash = zero_digest; size_bytes = 100 }

abbrev pub missing_input : TxInput
missing_input = record {
  prev_txid = text "bb";
  prev_vout = 0;
  script_sig = [];
  sequence = 0;
  ct_commitment = none;
}

abbrev pub spender : Transaction
spender = record {
  version = 1;
  inputs = missing_input ∷ [];
  outputs = miner_output ∷ [];
  locktime = 0;
  is_coinbase = false;
  txid = text "cc";
}

abbrev pub bad_block : Block
bad_block = record {
  header = record first_header { merkle_root = zero_digest };
  transactions = reward ∷ spender ∷ [];
  block_hash = [];
  size_bytes = 0;
}

abbrev pub bad_checked : Block
bad_checked = record bad_block { block_hash = zero_digest; size_bytes = 100 }
