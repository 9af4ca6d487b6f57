-- ===== src/Orchestrator.antt =====
-- The agent (`BitchchainOrchestrator`, agent/orchestrator.py, lines 33 to 260): how the chain, the
-- registry, the node and the agent's store work together. What fails is an exception in the first
-- component; the state keeps what was written before it. A mempool entry whose fields have other
-- types than the dataclasses name is skipped here.
pub mod Calls
pub mod Pool
pub mod Methods
pub mod Submission
pub mod Skipped
pub mod Anchors
pub mod Coherence
pub mod Reach
use bitchchain.Base.{
  ℕ, ◌+◌, ◌^◌, Bool, true, false, not, Option, none, some, List, [], ◌∷◌, ◌++◌, Text, Bytes, text,
  text_beq, if◌then◌else◌, take, drop, length, ℤ, pos, negsuc, ltb_ℤ, attribute_error, Result, ok,
  err, ◌>>=◌, type_error, hex, map,
}
use Prim.Native.String.{String}
use bitchchain.Json.{
  Json, Items, Fields, Codec, as_int, as_nat, as_str, traverse_items, argument_or, find?,
}
use bitchchain.Tx.{TxInput, TxOutput, Transaction, Block, compute_txid}
use bitchchain.Tx.Dict.{input_of_dict, output_of_dict, tx_to_dict, block_to_dict}
use bitchchain.Chain.{Chain, apply_block}
use bitchchain.Mining.{mine_block, mine_regtest}
use bitchchain.Finality.{FinalityVote, Registry}
use bitchchain.Consensus.{Reply, submit_block, submit_vote, register_validator}
use bitchchain.Memory.{
  Memory, get_mempool, clear_mempool_txids, save_chain_tip, log_event, add_to_mempool,
}
use bitchchain.Genesis.{create_genesis_block}
use bitchchain.Rpc.{is_true}

-- A listener of the agent's store sees the node's broadcasts as tasks, in the order of their making.
pub record Agent (Raw : Type 0) : Type 0 where
  pub memory : Memory Raw
  pub chain : Chain Raw
  pub registry : Registry
  pub running : Bool
  pub tasks : List (Text × Json)

-- `for x in value`, where what is iterated are dictionaries or nothing: the characters of a text and
-- the keys of a dictionary do not serve as keyword arguments.
abbrev pub iterate : Json → Result Items
iterate (Json.arr xs) = ok xs
iterate (Json.obj Fields.end) = ok Items.nil
iterate (Json.str []) = ok Items.nil
iterate j = err type_error

-- A transaction of the mempool. A value of another type than its field, or a negative one in a field
-- that is never negative, ends the entry here; the dataclasses of the source take it as it is.
unfoldable pub tx_of_entry : Fields → Result Transaction
tx_of_entry fs = do
  inputs ← traverse_items input_of_dict (← iterate (argument_or (Json.arr Items.nil) "inputs" fs))
  outputs ←
      traverse_items output_of_dict (← iterate (argument_or (Json.arr Items.nil) "outputs" fs))
  version ← as_nat (argument_or (Json.int (pos 1)) "version" fs)
  locktime ← as_nat (argument_or (Json.int (pos 0)) "locktime" fs)
  txid ← as_str (argument_or (Json.str []) "txid" fs)
  ok (record {
    version = version;
    inputs = inputs;
    outputs = outputs;
    locktime = locktime;
    is_coinbase = false;
    txid = txid;
  })

-- The loop over the mempool, which skips what is not a transaction.
unfoldable pub readable_txs : List Fields → List Transaction
unfolding tx_of_entry
readable_txs [] = []
readable_txs (fs ∷ rest) =
    let later = readable_txs rest in elim (tx_of_entry fs) [ ok tx ↦ tx ∷ later | err e ↦ later ]

-- What `mine_block` returns.
pub data MineReply : Type 0 where
  mined : (block_hash : Text) (height : ℤ) (tx_count size_bytes : ℕ) → MineReply
  exhausted : MineReply
  rejected : MineReply

abbrev pub txids_of : List Transaction → List Text
txids_of [] = []
txids_of (tx ∷ txs) = tx.txid ∷ txids_of txs

-- What is fixed when the agent is made, and what it reads from outside: the time at which the template
-- of a block is made, the times during the search for a nonce, the time at which the block is
-- validated, and the time as the store keeps it.
pub record Setting : Type 0 where
  pub miner_address : Bytes
  pub now : ℕ
  pub submitted_at : ℕ
  pub stamp : Json
  pub clock : ℕ → ℕ

module _ (sha256 ripemd160 : Bytes → Bytes) (codec : Codec) where
  open codec use {Raw}

  abbrev pub mine_normal : Setting → Chain Raw → List Transaction → Result (Option Block)
  mine_normal setting chain txs =
      mine_block sha256 ripemd160 codec setting.miner_address setting.now setting.clock chain txs
        10_000_000

  -- `HybridConsensus.propose_block`
  unfoldable pub propose_block :
      Setting → Bool → Chain Raw → List Transaction → Result (Option Block)
  propose_block setting true chain txs =
      mine_regtest sha256 ripemd160 codec setting.miner_address setting.now chain txs 0x207fffff
      >>= λ block. ok (some block)
  propose_block setting false chain txs = mine_normal setting chain txs

  -- The store once a block is mined.
  unfoldable pub record_mined : Json → Block → Memory Raw → Memory Raw
  record_mined stamp block memory =
      log_event codec (text "block_mined")
        (some (
          Fields.field "hash" (Json.str block.block_hash) (
            Fields.field "height" (Json.int block.header.height)
              (Fields.field "tx_count" (Json.int (pos (length block.transactions))) Fields.end))))
        (save_chain_tip codec block.block_hash block.header.height stamp
          (clear_mempool_txids codec (txids_of (drop 1 block.transactions)) memory))

  abbrev pub reply_of : Block → MineReply
  reply_of block =
      mined block.block_hash block.header.height (length block.transactions) block.size_bytes

  abbrev pub scheduled : Block → Agent Raw → List (Text × Json)
  scheduled block agent =
      if agent.running
      then agent.tasks ++ (block.block_hash, block_to_dict block) ∷ []
      else agent.tasks

  -- The answer to a submitted block.
  unfoldable pub settle_block :
      Json → Bool × Block × Chain Raw × Registry → Agent Raw → Result MineReply × Agent Raw
  settle_block stamp (false, block, chain, registry) agent =
      (ok rejected, record agent { chain = chain; registry = registry })
  settle_block stamp (true, block, chain, registry) agent = (
    ok (reply_of block),
    record {
      memory = record_mined stamp block agent.memory;
      chain = chain;
      registry = registry;
      running = agent.running;
      tasks = scheduled block agent;
    },
  )

  unfoldable pub settle_submitted :
      Json → Result (Bool × Block × Chain Raw × Registry) → Agent Raw → Result MineReply × Agent Raw
  unfolding settle_block
  settle_submitted stamp (err e) agent = (err e, agent)
  settle_submitted stamp (ok out) agent = settle_block stamp out agent

  -- The block that was proposed is submitted.
  unfoldable pub submit_proposed :
      Setting → Result (Option Block) → Agent Raw → Result MineReply × Agent Raw
  submit_proposed setting (err e) agent = (err e, agent)
  submit_proposed setting (ok none) agent = (ok exhausted, agent)
  submit_proposed setting (ok (some block)) agent =
      settle_submitted setting.stamp
        (submit_block sha256 codec setting.submitted_at block agent.chain agent.registry) agent

  unfoldable pub mine_and_submit : Setting → Bool → Agent Raw → Result MineReply × Agent Raw
  unfolding readable_txs
  mine_and_submit setting regtest agent =
      submit_proposed setting
        (get_mempool codec 1000 agent.memory >>= λ entries.
          propose_block setting regtest agent.chain (readable_txs entries))
        agent
