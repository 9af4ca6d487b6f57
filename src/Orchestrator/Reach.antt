-- ===== src/Orchestrator/Reach.antt =====
-- The states of the agent, from an empty one by its calls, by what peers send and by restarts
-- (agent/orchestrator.py, lines 33 to 245).
use bitchchain.Curve.{Point}
use bitchchain.Transfers.Building.{Draws}
use bitchchain.Base.{
  ℕ, ◌≡◌, Option-cases, sym, ap, ◌∙◌, ◌⊎◌, inl, inr, Bool, true, false, Option, none, some, [],
  Text, Bytes, ℤ, pos, text_eq, arith, Result, ok, contains, select,
}
use mathlib.Core.Path.{subst}
use bitchchain.Json.{Json, Codec}
use bitchchain.Tx.{Block}
use bitchchain.Chain.{Chain, load_tip, get_block}
use bitchchain.Utxo.{all_committed}
use bitchchain.Chain.Apply.{ReadsBack, get_block-of_row}
use bitchchain.Chain.Invariant
use bitchchain.Finality.{Checkpoint, get_checkpoint}
use bitchchain.Finality.Votes.{IsTallied}
use bitchchain.Consensus.{is_checkpoint_height}
use bitchchain.Consensus.Finalizing
use bitchchain.Orchestrator.{Agent, Setting, mine_and_submit}
use bitchchain.Orchestrator.Calls.{
  send_transaction, send_ct_transaction, stake_validator, submit_finality_vote, start_node,
  stop_node, on_tx_received, on_block_received,
}
use bitchchain.Orchestrator.Methods.{sendrawtransaction}
use bitchchain.Orchestrator.Anchors.{IsAnchored}
use bitchchain.Orchestrator.Coherence.{
  IsCoherent, mine_and_submit-IsCoherent, stake_validator-IsCoherent,
  submit_finality_vote-IsCoherent, start_node-IsCoherent,
}

-- The agent over empty databases.
abbrev pub empty_agent : {Raw : Type 0} → Agent Raw
empty_agent = record {
  memory = record { kv_store = []; mempool = []; session_log = [] };
  chain = load_tip [] [] none;
  registry = record { validators = []; checkpoints = [] };
  running = false;
  tasks = [];
}

-- A new process on the same databases.
abbrev pub restart : {Raw : Type 0} → Agent Raw → Agent Raw
restart agent = record agent { chain = Invariant.reopen agent.chain; running = false; tasks = [] }

module _ (sha256 ripemd160 : Bytes → Bytes) (codec : Codec) where
  open codec use {Raw}

  -- The agents that any sequence of calls, of messages from peers and of restarts leads to. A call
  -- counts whether or not it raised.
  pub data Reach : Agent Raw → Type 0 where
    created : Reach empty_agent
    started :
        {agent : Agent Raw} (now : ℕ)
        → Reach agent
        → Reach (start_node sha256 ripemd160 codec now agent).1
    mined :
        {agent : Agent Raw} (setting : Setting) (regtest : Bool)
        → Reach agent
        → Reach (mine_and_submit sha256 ripemd160 codec setting regtest agent).1
    sent :
        {agent : Agent Raw} (to_address : Bytes) (amount : ℤ) (from_txid : Text) (from_vout : ℕ)
        (script_sig : Text) (fee : ℤ)
        → Reach agent
        → Reach
            (send_transaction sha256 ripemd160 codec to_address amount from_txid from_vout
              script_sig fee agent).1
    sent_hidden :
        {agent : Agent Raw} (hmac : Bytes → Bytes → Bytes) (canonical : Json → Bytes) (h : Point)
        (parties : Text × Text) (amounts : ℤ × ℤ) (input : Text × ℕ × ℕ) (draws : Draws) (nonce : ℕ)
        → Reach agent
        → Reach
            (send_ct_transaction sha256 ripemd160 codec hmac canonical h parties amounts input draws
              nonce agent).1
    staked :
        {agent : Agent Raw} (address : Text) (stake : ℤ) (stake_txid : Text)
        → Reach agent
        → Reach (stake_validator sha256 ripemd160 codec address stake stake_txid agent).1
    voted :
        {agent : Agent Raw} (now : ℕ) (validator source target signature : Text)
        → Reach agent
        → Reach
            (submit_finality_vote sha256 ripemd160 codec now validator source target signature
              agent).1
    heard_tx :
        {agent : Agent Raw} (column : Json → Result Text) (tx_data : Json)
        → Reach agent
        → Reach (record agent { memory = (on_tx_received codec column tx_data agent.memory).1 })
    heard_block :
        {agent : Agent Raw} (block_data : Json)
        → Reach agent
        → Reach (record agent { memory = (on_block_received codec block_data agent.memory).1 })
    given :
        {agent : Agent Raw} (loads_text : Text → Option Json) (params : Json)
        → Reach agent
        → Reach
            (record agent { memory = (sendrawtransaction codec loads_text params agent.memory).1 })
    stopped :
        {agent : Agent Raw} (chain_closes utxos_close registry_closes memory_closes : Bool)
        → Reach agent
        → Reach (stop_node codec chain_closes utxos_close registry_closes memory_closes agent).1
    restarted : {agent : Agent Raw} → Reach agent → Reach (restart agent)

  sent-IsCoherent :
      (to_address : Bytes) (amount : ℤ) (from_txid : Text) (from_vout : ℕ) (script_sig : Text)
      (fee : ℤ) (agent : Agent Raw)
      → IsCoherent sha256 ripemd160 codec agent.chain agent.registry
      → let later =
          (send_transaction sha256 ripemd160 codec to_address amount from_txid from_vout script_sig
            fee agent).1 in
        IsCoherent sha256 ripemd160 codec later.chain later.registry
  unfolding send_transaction
  sent-IsCoherent to_address amount from_txid from_vout script_sig fee agent i = ground arith

  sent_hidden-IsCoherent :
      (hmac : Bytes → Bytes → Bytes) (canonical : Json → Bytes) (h : Point) (parties : Text × Text)
      (amounts : ℤ × ℤ) (input : Text × ℕ × ℕ) (draws : Draws) (nonce : ℕ) (agent : Agent Raw)
      → IsCoherent sha256 ripemd160 codec agent.chain agent.registry
      → let later =
          (send_ct_transaction sha256 ripemd160 codec hmac canonical h parties amounts input draws
            nonce agent).1 in
        IsCoherent sha256 ripemd160 codec later.chain later.registry
  unfolding send_ct_transaction
  sent_hidden-IsCoherent hmac canonical h parties amounts input draws nonce agent i = ground arith

  stopped-IsCoherent :
      (chain_closes utxos_close registry_closes memory_closes : Bool) (agent : Agent Raw)
      → IsCoherent sha256 ripemd160 codec agent.chain agent.registry
      → let later =
          (stop_node codec chain_closes utxos_close registry_closes memory_closes agent).1 in
        IsCoherent sha256 ripemd160 codec later.chain later.registry
  unfolding stop_node
  stopped-IsCoherent chain_closes utxos_close registry_closes memory_closes agent i = ground arith

  created-IsCoherent :
      let agent : Agent Raw = empty_agent in
      IsCoherent sha256 ripemd160 codec agent.chain agent.registry
  created-IsCoherent = record {
    chained = Invariant.created;
    registered = Finalizing.created;
    anchored = λ hash c h. absurd (cc h);
  }

  restarted-IsCoherent :
      (agent : Agent Raw)
      → ReadsBack codec
      → IsCoherent sha256 ripemd160 codec agent.chain agent.registry
      → IsCoherent sha256 ripemd160 codec (restart agent).chain (restart agent).registry
  restarted-IsCoherent agent reads i =
      let kept = Invariant.reopen-keeps sha256 codec agent.chain reads i.chained in
      record {
        chained = Invariant.reopened i.chained;
        registered = i.registered;
        anchored =
            subst (λ (c : Chain Raw). IsAnchored c.blocks agent.registry.checkpoints) (sym kept)
              i.anchored;
      }

  -- In every reachable agent the chain and the registry are in states that their own operations
  -- lead to, and every checkpoint of another height than 0 names a stored block.
  Reach-IsCoherent :
      (agent : Agent Raw)
      → ReadsBack codec
      → Reach agent
      → IsCoherent sha256 ripemd160 codec agent.chain agent.registry
  Reach-IsCoherent _ reads created = created-IsCoherent
  Reach-IsCoherent _ reads (started {agent} now r) =
      start_node-IsCoherent sha256 ripemd160 codec now agent (Reach-IsCoherent agent reads r)
  Reach-IsCoherent _ reads (mined {agent} setting regtest r) =
      mine_and_submit-IsCoherent sha256 ripemd160 codec setting regtest agent
        (Reach-IsCoherent agent reads r)
  Reach-IsCoherent _ reads (sent {agent} to_address amount from_txid from_vout script_sig fee r) =
      sent-IsCoherent to_address amount from_txid from_vout script_sig fee agent
        (Reach-IsCoherent agent reads r)
  Reach-IsCoherent _ reads
        (sent_hidden {agent} hmac canonical h parties amounts input draws nonce r) =
      sent_hidden-IsCoherent hmac canonical h parties amounts input draws nonce agent
        (Reach-IsCoherent agent reads r)
  Reach-IsCoherent _ reads (staked {agent} address stake stake_txid r) =
      stake_validator-IsCoherent sha256 ripemd160 codec address stake stake_txid agent
        (Reach-IsCoherent agent reads r)
  Reach-IsCoherent _ reads (voted {agent} now validator source target signature r) =
      submit_finality_vote-IsCoherent sha256 ripemd160 codec now validator source target signature
        agent (Reach-IsCoherent agent reads r)
  Reach-IsCoherent _ reads (heard_tx {agent} column tx_data r) = Reach-IsCoherent agent reads r
  Reach-IsCoherent _ reads (heard_block {agent} block_data r) = Reach-IsCoherent agent reads r
  Reach-IsCoherent _ reads (given {agent} loads_text params r) = Reach-IsCoherent agent reads r
  Reach-IsCoherent _ reads
        (stopped {agent} chain_closes utxos_close registry_closes memory_closes r) =
      stopped-IsCoherent chain_closes utxos_close registry_closes memory_closes agent
        (Reach-IsCoherent agent reads r)
  Reach-IsCoherent _ reads (restarted {agent} r) =
      restarted-IsCoherent agent reads (Reach-IsCoherent agent reads r)

  stored_block :
      (c : Chain Raw) (hash : Text)
      → ReadsBack codec
      → Invariant.Reach sha256 codec c
      → contains hash c.blocks ≡ true
      → (b : Block) × (get_block codec c hash ≡ ok (some b)) × Invariant.IsSound sha256 codec hash b
  stored_block c hash reads r stored = elim (Option-cases (select hash c.blocks)) [
    | inl missing ↦ absurd (ground arith)
    | inr (row, found) ↦
        let (b, written, sound) =
          (Invariant.Reach-IsConsistent sha256 codec c reads r).sound hash row found in
        (b, get_block-of_row codec c hash b reads (found ∙ ap some written), sound)
  ]

  -- What a checkpoint stands for: it is at height 0, or at a height at which checkpoints are opened,
  -- and the chain has a sound block under its hash.
  abbrev pub IsFounded : Chain Raw → Text → Checkpoint → Type 0
  IsFounded chain hash c =
      (c.height ≡ pos 0)
      ⊎ ((is_checkpoint_height c.height ≡ true)
          × ((b : Block) × (get_block codec chain hash ≡ ok (some b))
              × Invariant.IsSound sha256 codec hash b))

  -- In every state that an agent reaches, by any sequence of its calls, of messages from peers and
  -- of restarts, the recorded votes of a checkpoint are of distinct validators and add up to its
  -- recorded total. The checkpoint is at height 0, or its height is one at which checkpoints are
  -- opened and the chain has a block under its hash: `get_block` returns it, it carries and hashes
  -- to that hash, meets its target, is within the size limit, has the Merkle root of its
  -- transactions and begins with a coinbase.
  pub Reach-checkpoint :
      (agent : Agent Raw) (hash : Text) (c : Checkpoint)
      → ReadsBack codec
      → Reach agent
      → get_checkpoint hash agent.registry ≡ some c
      → IsTallied c × IsFounded agent.chain hash c
  unfolding get_checkpoint
  Reach-checkpoint agent hash c reads r found =
      let i = Reach-IsCoherent agent reads r in
      let all = Finalizing.Reach-AllTallied agent.registry i.registered in
      let founded : IsFounded agent.chain hash c = elim (i.anchored hash c found) [
        | inl low ↦ inl low
        | inr (right, stored) ↦ inr (right, stored_block agent.chain hash reads i.chained stored)
      ] in
      ((all hash c found).1, founded)

  -- A new process on the databases of a reachable agent has the blocks, the tip and the height of the
  -- old one, and the unspent outputs that were committed.
  pub restart-keeps :
      (agent : Agent Raw)
      → ReadsBack codec
      → Reach agent
      → (restart agent).chain
        ≡ record agent.chain { utxo_set = all_committed agent.chain.utxo_set.committed }
  restart-keeps agent reads r =
      Invariant.reopen-keeps sha256 codec agent.chain reads (Reach-IsCoherent agent reads r).chained
