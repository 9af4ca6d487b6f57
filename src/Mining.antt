-- ===== src/Mining.antt =====
-- `class MiningEngine` of agent/modules/consensus_engine.py (lines 198 to 288): the coinbase, the
-- block template and the search for a nonce. The hash functions, the form of JSON and the clock are
-- parameters.
pub mod Search
pub mod Accepted
use bitchchain.Base.{
  ℕ, zero, suc, ◌+◌, ◌*◌, ◌^◌, ◌%◌, ◌≡◌, Bool, true, false, Option, none, some, List, [], ◌∷◌, ◌++◌,
  ℤ, pos, negsuc, ◌+ℤ◌, leb_ℤ, leb, ltb, ◌==◌, if◌then◌else◌, Text, Bytes, text, hex, pack, int_hex,
  replicate, Result, ok, err, struct_error, runtime_error, ◌>>=◌, traverse,
}
use bitchchain.Pow.{compute_block_reward, bits_to_target, below_target, Target}
use bitchchain.Json.{Codec}
use bitchchain.Tx.{
  TxInput, TxOutput, Transaction, BlockHeader, Block, compute_txid, header_hash,
  total_output_satoshis,
}
use bitchchain.Tx.Dict.{tx_to_dict}
use bitchchain.Tx.Merkle.{compute_merkle_root}
use bitchchain.Chain.{Chain, fill_txid, get_next_bits}

-- `struct.pack("<I", height)`: a negative height is refused.
abbrev pack_height : ℤ → Result Bytes
pack_height (pos n) = pack 4 n
pack_height (negsuc n) = err struct_error

-- The key of the sort. A `Transaction` has no attribute `fee_satoshis`, so the key is always the
-- total of the outputs. `reverse=True` keeps equal keys in their order.
unfoldable pub insert_tx : Transaction → List Transaction → List Transaction
insert_tx tx [] = tx ∷ []
insert_tx tx (u ∷ us) =
    if leb_ℤ (total_output_satoshis u) (total_output_satoshis tx)
    then tx ∷ u ∷ us
    else u ∷ insert_tx tx us

unfoldable pub sort_txs : List Transaction → List Transaction
unfolding insert_tx
sort_txs [] = []
sort_txs (tx ∷ txs) = insert_tx tx (sort_txs txs)

-- The selection loop: a transaction that does not fit is passed over.
unfoldable pub select_txs : (Transaction → ℕ) → ℕ → List Transaction → List Transaction
select_txs tx_size block_size [] = []
select_txs tx_size block_size (tx ∷ txs) =
    let taken = select_txs tx_size (block_size + tx_size tx) txs in
    let passed = select_txs tx_size block_size txs in
    if leb (block_size + tx_size tx) (4 * 1024 * 1024) then tx ∷ taken else passed

abbrev pub zero_hash : Text
zero_hash = replicate 64 b'0'

-- `tip_hash or "0" * 64`
abbrev pub tip_or_zero : Option Text → Text
tip_or_zero none = zero_hash
tip_or_zero (some []) = zero_hash
tip_or_zero (some (c ∷ cs)) = c ∷ cs

module _ (sha256 ripemd160 : Bytes → Bytes) where
  -- `build_coinbase_tx`; the address is given by its UTF-8 bytes.
  unfoldable pub build_coinbase_tx : Bytes → ℤ → ℕ → Result Transaction
  build_coinbase_tx miner_address height extra_nonce = compute_block_reward height >>= λ reward.
      pack_height height >>= λ height_bytes. pack 8 extra_nonce >>= λ nonce_bytes.
      let script_sig = hex height_bytes ++ (hex nonce_bytes ++ hex (text "Bitchchain")) in
      let script_pubkey =
        text "76a914" ++ (hex (ripemd160 (sha256 miner_address)) ++ text "88ac") in
      let inp : TxInput = record {
        prev_txid = zero_hash;
        prev_vout = 0xFFFFFFFF;
        script_sig = script_sig;
        sequence = 0xFFFFFFFF;
        ct_commitment = none;
      } in
      let out : TxOutput = record {
        value_satoshis = pos reward;
        script_pubkey = script_pubkey;
        ct_commitment = none;
        ct_range_proof = none;
      } in
      let tx : Transaction = record {
        version = 1;
        inputs = inp ∷ [];
        outputs = out ∷ [];
        locktime = 0;
        is_coinbase = true;
        txid = [];
      } in
      compute_txid sha256 tx >>= λ txid. ok (record tx { txid = txid })

module _ (sha256 : Bytes → Bytes) where
  -- The block of the selected transactions with their ids and its Merkle root.
  unfoldable pub assemble : BlockHeader → List Transaction → Result Block
  assemble header selected = traverse (fill_txid sha256) selected >>= λ txs.
      compute_merkle_root sha256 txs >>= λ root. ok (record {
        header = record header { merkle_root = root };
        transactions = txs;
        block_hash = [];
        size_bytes = 0;
      })

module _ (sha256 ripemd160 : Bytes → Bytes) (codec : Codec) where
  open codec use {Raw, dumps, size}

  abbrev pub json_size : Transaction → ℕ
  json_size tx = size (dumps (tx_to_dict tx))

  abbrev pub template_header : ℕ → Chain Raw → ℕ → BlockHeader
  template_header now chain bits = record {
    version = 1;
    prev_hash = tip_or_zero chain.chain_tip;
    merkle_root = [];
    timestamp = now;
    bits = bits;
    nonce = 0;
    height = chain.height +ℤ pos 1;
    validator_vote_hash = [];
  }

  -- `build_block_template`
  unfoldable pub build_block_template : Bytes → ℕ → Chain Raw → List Transaction → Result Block
  build_block_template miner_address now chain mempool_txs = get_next_bits chain >>= λ bits.
      build_coinbase_tx sha256 ripemd160 miner_address (chain.height +ℤ pos 1) 0 >>= λ coinbase.
      assemble sha256 (template_header now chain bits)
        (coinbase ∷ select_txs json_size 1000 (sort_txs mempool_txs))

module _ (sha256 : Bytes → Bytes) where
  abbrev pub with_nonce : Block → ℕ → Block
  with_nonce block nonce = record block { header = record block.header { nonce = nonce } }

  -- Whether the header's hash is below the target, and the hash.
  unfoldable pub try_nonce : Target → Block → Result (Bool × Text)
  try_nonce target block = header_hash sha256 block.header >>= λ hash.
      int_hex hash >>= λ n. ok (below_target n target, hash)

  -- `for nonce in range(…)`, with the rounds that are left and what is done to the block after a
  -- miss; `none` when the range is exhausted.
  unfoldable pub search_nonce : (ℕ → Block → Block) → Target → ℕ → ℕ → Block → Result (Option Block)
  search_nonce missed target zero nonce block = ok none
  search_nonce missed target (suc rounds) nonce block =
      let tried = with_nonce block nonce in
      try_nonce target tried >>= λ out.
      let rest = search_nonce missed target rounds (suc nonce) (missed nonce tried) in
      if out.0 then ok (some (record tried { block_hash = out.1 })) else rest

  -- `mine_block` refreshes the time after every hundred thousand misses; `clock` gives the time
  -- that is read after a nonce.
  abbrev pub refresh : (ℕ → ℕ) → ℕ → Block → Block
  refresh clock nonce block =
      if nonce % 100_000 == 0
      then record block { header = record block.header { timestamp = clock nonce } }
      else block

  -- `mine_block` on a template.
  unfoldable pub mine_template : (ℕ → ℕ) → ℕ → Block → Result (Option Block)
  mine_template clock max_iterations block =
      search_nonce (refresh clock) (bits_to_target block.header.bits) max_iterations 0 block

  -- `mine_regtest` on a template, over a range of nonces (2 ^ 32 in the source).
  unfoldable pub mine_regtest_template : ℕ → ℕ → Block → Result Block
  mine_regtest_template range difficulty_bits block =
      search_nonce (λ nonce b. b) (bits_to_target difficulty_bits) range 0
        (record block { header = record block.header { bits = difficulty_bits } })
      >>= λ found. elim found [ none ↦ err runtime_error | some b ↦ ok b ]

module _ (sha256 ripemd160 : Bytes → Bytes) (codec : Codec) where
  open codec use {Raw}

  unfoldable pub mine_block :
      Bytes → ℕ → (ℕ → ℕ) → Chain Raw → List Transaction → ℕ → Result (Option Block)
  mine_block miner_address now clock chain mempool_txs max_iterations =
      build_block_template sha256 ripemd160 codec miner_address now chain mempool_txs >>= λ block.
      mine_template sha256 clock max_iterations block

  unfoldable pub mine_regtest : Bytes → ℕ → Chain Raw → List Transaction → ℕ → Result Block
  mine_regtest miner_address now chain mempool_txs difficulty_bits =
      build_block_template sha256 ripemd160 codec miner_address now chain mempool_txs >>= λ block.
      mine_regtest_template sha256 (2 ^ 32) difficulty_bits block
