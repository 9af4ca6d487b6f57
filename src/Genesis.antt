-- ===== src/Genesis.antt =====
-- The genesis block (`create_genesis_block`, agent/modules/blockchain_core.py).
pub mod Accepted
use bitchchain.Base.{◌^◌, ◌-◌, true, none, some, [], ◌∷◌, Bytes, pos, text, Result, ok, ◌>>=◌, ◌++◌}
use bitchchain.Pow.{coinbase_reward_satoshis, bits_to_target}
use bitchchain.Tx.{TxInput, TxOutput, Transaction, BlockHeader, Block, compute_txid}
use bitchchain.Tx.Merkle.{compute_merkle_root}
use bitchchain.Mining.{with_nonce, search_nonce, zero_hash}

abbrev pub genesis_input : TxInput
genesis_input = record {
  prev_txid = zero_hash;
  prev_vout = 0xFFFFFFFF;
  script_sig = text "04ffff001d0104";
  sequence = 0xFFFFFFFF;
  ct_commitment = none;
}

abbrev pub genesis_output : TxOutput
genesis_output = record {
  value_satoshis = pos coinbase_reward_satoshis;
  script_pubkey =
      text "4104678afdb0fe5548271967f1a67130b7105cd6a828e03909a67962e0ea1f61"
      ++ text "deb649f6bc3f4cef38c4f35504e51ec112de5c384df7ba0b8d578a4c702b6bf11d5fac";
  ct_commitment = none;
  ct_range_proof = none;
}

abbrev pub genesis_coinbase : Transaction
genesis_coinbase = record {
  version = 1;
  inputs = genesis_input ∷ [];
  outputs = genesis_output ∷ [];
  locktime = 0;
  is_coinbase = true;
  txid = [];
}

abbrev pub genesis_header : BlockHeader
genesis_header = record {
  version = 1;
  prev_hash = zero_hash;
  merkle_root = [];
  timestamp = 1_717_833_600;
  bits = 0x207fffff;
  nonce = 0;
  height = pos 0;
  validator_vote_hash = [];
}

module _ (sha256 : Bytes → Bytes) where
  -- The block before its nonce is searched.
  unfoldable pub genesis_template : Result Block
  genesis_template = compute_txid sha256 genesis_coinbase >>= λ txid.
      let coinbase = record genesis_coinbase { txid = txid } in
      compute_merkle_root sha256 (coinbase ∷ []) >>= λ root. ok (record {
        header = record genesis_header { merkle_root = root };
        transactions = coinbase ∷ [];
        block_hash = [];
        size_bytes = 0;
      })

  -- When no nonce of the range is a hit the block keeps the last one, and has no hash.
  unfoldable pub create_genesis_block : Result Block
  create_genesis_block = genesis_template >>= λ genesis.
      search_nonce sha256 (λ nonce block. block) (bits_to_target 0x207fffff) (2 ^ 32) 0 genesis
      >>= λ found. elim found [
        | none ↦ ok (with_nonce sha256 genesis (2 ^ 32 - 1))
        | some block ↦ ok block
      ]
