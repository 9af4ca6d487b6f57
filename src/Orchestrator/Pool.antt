-- ===== src/Orchestrator/Pool.antt =====
-- The agent's mining (`mine_block`, agent/orchestrator.py, lines 109 to 152): what it leaves in the
-- mempool and in the chain.
use bitchchain.Base.{
  ℕ, ◌≡◌, refl, Bool, true, false, Option, none, some, Text, Bytes, if◌then◌else◌, drop, Result, ok,
  err, ◌>>=◌, select, text_eq, arith,
}
use bitchchain.Json.{Json, Codec}
use bitchchain.Tx.{Block}
use bitchchain.Chain.{Chain, apply_block}
use bitchchain.Chain.Apply.{apply_block-Extends}
use bitchchain.Finality.{Registry}
use bitchchain.Consensus.{submit_block}
use bitchchain.Memory.{Memory, get_mempool, save_chain_tip, set, log_event}
use bitchchain.Memory.Laws.{listed, select-clear_mempool_txids}
use bitchchain.Orchestrator.{
  Agent, Setting, MineReply, mined, txids_of, readable_txs, propose_block, record_mined,
  settle_submitted, submit_proposed, mine_and_submit,
}

module _ (sha256 ripemd160 : Bytes → Bytes) (codec : Codec) where
  open codec use {Raw}

  -- What a block leaves in the mempool.
  record_mined-mempool :
      (stamp : Json) (block : Block) (memory : Memory Raw) (t : Text)
      → select t (record_mined sha256 ripemd160 codec stamp block memory).mempool ≡ (
          if listed t (txids_of (drop 1 block.transactions)) then none else select t memory.mempool)
  unfolding record_mined save_chain_tip set log_event
  record_mined-mempool stamp block memory t =
      select-clear_mempool_txids codec (txids_of (drop 1 block.transactions)) t memory

  -- A block that is rejected opens no checkpoint.
  submit_block_rejected :
      (now : ℕ) (block : Block) (chain : Chain Raw) (reg : Registry) (left : Block)
      (after : Chain Raw) (later : Registry)
      → submit_block sha256 codec now block chain reg ≡ ok (false, left, after, later)
      → later ≡ reg
  unfolding submit_block
  submit_block_rejected now block chain reg left after later h = ground arith

  submit_block_applied :
      (now : ℕ) (block : Block) (chain : Chain Raw) (reg : Registry) (left : Block)
      (after : Chain Raw) (later : Registry)
      → submit_block sha256 codec now block chain reg ≡ ok (true, left, after, later)
      → apply_block sha256 codec now block chain ≡ ok (true, left, after)
  unfolding submit_block
  submit_block_applied now block chain reg left after later h = ground arith

  -- A block that is accepted is the tip of the chain.
  submit_block_accepted :
      (now : ℕ) (block : Block) (chain : Chain Raw) (reg : Registry) (left : Block)
      (after : Chain Raw) (later : Registry)
      → submit_block sha256 codec now block chain reg ≡ ok (true, left, after, later)
      → after.chain_tip ≡ some left.block_hash
  submit_block_accepted now block chain reg left after later h =
      (apply_block-Extends sha256 codec now block left chain after
        (submit_block_applied now block chain reg left after later h)).tip

  -- What a call of `mine_block` answers and leaves. Where a block is mined, the block that was
  -- proposed is submitted and accepted: it is the chain's tip, the answer has its hash, and exactly its transactions behind the
  -- first have left the mempool. Otherwise the store, the registry and the tasks are untouched, and
  -- where an exception is raised the chain is, too.
  abbrev pub Settled :
      Setting → Result (Option Block) → Agent Raw → Result MineReply × Agent Raw → Type 0
  Settled setting proposed agent (ok (mined hash height tx_count size), later) =
      (block : Block) × (submitted : Block) × (proposed ≡ ok (some block))
      × (submit_block sha256 codec setting.submitted_at block agent.chain agent.registry
          ≡ ok (true, submitted, later.chain, later.registry))
      × (hash ≡ submitted.block_hash)
      × (later.chain.chain_tip ≡ some hash)
      × ((t : Text)
          → select t later.memory.mempool ≡ (
              if listed t (txids_of (drop 1 submitted.transactions))
              then none
              else select t agent.memory.mempool))
  Settled setting proposed agent (ok reply, later) =
      (later.memory ≡ agent.memory)
      × (later.registry ≡ agent.registry)
      × (later.tasks ≡ agent.tasks)
  Settled setting proposed agent (err e, later) = later ≡ agent

  settle_submitted-Settled :
      (setting : Setting) (block : Block) (agent : Agent Raw)
      (out : Result (Bool × Block × Chain Raw × Registry))
      → submit_block sha256 codec setting.submitted_at block agent.chain agent.registry ≡ out
      → Settled setting
          (ok (some block))
          agent
          (settle_submitted sha256 ripemd160 codec setting.stamp out agent)
  unfolding settle_submitted
  settle_submitted-Settled setting block agent (err e) at = refl
  settle_submitted-Settled setting block agent (ok (false, left, chain, registry)) at = (
    refl,
    submit_block_rejected setting.submitted_at block agent.chain agent.registry left chain registry
        at,
    refl,
  )
  settle_submitted-Settled setting block agent (ok (true, left, chain, registry)) at = (
    block,
    left,
    refl,
    at,
    refl,
    submit_block_accepted setting.submitted_at block agent.chain agent.registry left chain registry
        at,
    λ t. record_mined-mempool setting.stamp left agent.memory t,
  )

  submit_proposed-Settled :
      (setting : Setting) (proposed : Result (Option Block)) (agent : Agent Raw)
      → Settled setting proposed agent
          (submit_proposed sha256 ripemd160 codec setting proposed agent)
  unfolding submit_proposed
  submit_proposed-Settled setting (err e) agent = refl
  submit_proposed-Settled setting (ok none) agent = (refl, refl, refl)
  submit_proposed-Settled setting (ok (some block)) agent =
      settle_submitted-Settled setting block agent
        (submit_block sha256 codec setting.submitted_at block agent.chain agent.registry) refl

  -- `mine_block` of the agent, on every branch: where it answers that a block is mined, the block
  -- proposed from the mempool was submitted and accepted, it is the tip of the chain and the
  -- answer's hash is its hash, and exactly the ids of its transactions behind the first have left
  -- the mempool. With any other answer the store, the registry and the tasks are as they were, and
  -- an exception leaves the whole agent as it was.
  pub mine_and_submit-Settled :
      (setting : Setting) (regtest : Bool) (agent : Agent Raw)
      → Settled setting
          (get_mempool codec 1000 agent.memory >>= λ entries.
            propose_block sha256 ripemd160 codec setting regtest agent.chain (readable_txs entries))
          agent
          (mine_and_submit sha256 ripemd160 codec setting regtest agent)
  unfolding mine_and_submit
  mine_and_submit-Settled setting regtest agent =
      submit_proposed-Settled setting
        (get_mempool codec 1000 agent.memory >>= λ entries.
          propose_block sha256 ripemd160 codec setting regtest agent.chain (readable_txs entries))
        agent
