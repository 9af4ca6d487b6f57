-- ===== src/Orchestrator/Calls.antt =====
-- The agent's other calls and the handlers of what peers send (agent/orchestrator.py, lines 70 to 245).
use bitchchain.Base.Strings.Numerals.{hex_text}
use bitchchain.Curve.{Point}
use bitchchain.Transfers.{CtTransaction, ct_to_dict}
use bitchchain.Transfers.Building.{Draws, build_ct_transaction}
use bitchchain.Base.{
  List, map, ◌-ℤ◌, ℕ, Bool, true, false, Option, none, some, [], ◌∷◌, ◌++◌, Text, Bytes, text,
  if◌then◌else◌, ℤ, pos, ltb_ℤ, attribute_error, Result, ok, err, type_error, hex, ◌&&◌,
  database_error,
}
use bitchchain.Json.{Json, Fields, Codec, argument_or, find?}
use bitchchain.Tx.{TxInput, TxOutput, Transaction, Block, compute_txid}
use bitchchain.Tx.Dict.{tx_to_dict}
use bitchchain.Chain.{Chain, apply_block}
use bitchchain.Finality.{Registry}
use bitchchain.Consensus.{Reply, submit_vote, register_validator}
use bitchchain.Memory.{Memory, log_event, add_to_mempool}
use bitchchain.Genesis.{create_genesis_block}
use bitchchain.Rpc.{is_true}
use bitchchain.Orchestrator.{Agent}

module _ (sha256 ripemd160 : Bytes → Bytes) (codec : Codec) where
  open codec use {Raw}

  -- Behind the write to the mempool: where it did not raise, the event is logged and the call returns.
  abbrev pub submitted :
      {A : Type 0}
      → A
      → Text
      → Fields
      → Result (Unit {0}) × Memory Raw
      → Agent Raw
      → Result A × Agent Raw
  submitted value event details (err e, memory) agent = (err e, agent)
  submitted value event details (ok a, memory) agent =
      (ok value, record agent { memory = log_event codec event (some details) memory })

  -- `send_transaction`: an output to the hash of the address, which is written to the mempool.
  unfoldable pub send_transaction :
      Bytes → ℤ → Text → ℕ → Text → ℤ → Agent Raw → Result Text × Agent Raw
  send_transaction to_address amount from_txid from_vout from_script_sig fee agent =
      let script_pubkey = text "76a914" ++ (hex (ripemd160 (sha256 to_address)) ++ text "88ac") in
      let inp : TxInput = record {
        prev_txid = from_txid;
        prev_vout = from_vout;
        script_sig = from_script_sig;
        sequence = 0xFFFFFFFF;
        ct_commitment = none;
      } in
      let out : TxOutput = record {
        value_satoshis = amount;
        script_pubkey = script_pubkey;
        ct_commitment = none;
        ct_range_proof = none;
      } in
      let tx : Transaction = record {
        version = 1;
        inputs = inp ∷ [];
        outputs = out ∷ [];
        locktime = 0;
        is_coinbase = false;
        txid = [];
      } in
      elim (compute_txid sha256 tx) [
        | err e ↦ (err e, agent)
        | ok txid ↦
            submitted txid (text "tx_submitted")
              (Fields.field "txid" (Json.str txid)
                (Fields.field "amount" (Json.int amount) Fields.end))
              (add_to_mempool codec txid (tx_to_dict (record tx { txid = txid })) fee agent.memory)
              agent
      ]

  -- The answer to a confidential transaction that was built: its id and the blinding factors.
  abbrev pub keep_ct :
      ℤ
      → Option (CtTransaction × List ℕ)
      → Agent Raw
      → Result (Option (Text × List Text)) × Agent Raw
  keep_ct fee none agent = (ok none, agent)
  keep_ct fee (some (tx, blindings)) agent =
      submitted (some (tx.txid, map hex_text blindings)) (text "ct_tx_submitted")
        (Fields.field "txid" (Json.str tx.txid) Fields.end)
        (add_to_mempool codec tx.txid (ct_to_dict tx) fee agent.memory) agent

  -- `send_ct_transaction`, with the random numbers that it draws; no private key is handed on, so
  -- that no round of a nonce is run.
  unfoldable pub send_ct_transaction :
      (Bytes → Bytes → Bytes)
      → (Json → Bytes)
      → Point
      → Text × Text
      → ℤ × ℤ
      → Text × ℕ × ℕ
      → Draws
      → ℕ
      → Agent Raw
      → Result (Option (Text × List Text)) × Agent Raw
  send_ct_transaction hmac canonical h (sender_address, to_script) (amount, fee) input draws nonce
        agent =
      elim (build_ct_transaction sha256 hmac canonical h 0 sender_address (input ∷ [])
        ((amount -ℤ fee, to_script, draws) ∷ []) fee 0 nonce) [
          | err e ↦ (err e, agent)
          | ok built ↦ keep_ct fee built agent
        ]

  -- The event that a call of the registry leaves in the log, where it did not raise.
  abbrev pub logged :
      (Bool → Fields)
      → Text
      → Result ((Bool × Reply) × Registry)
      → Agent Raw
      → Result (Bool × Reply) × Agent Raw
  logged details event (err e) agent = (err e, agent)
  logged details event (ok (answer, registry)) agent = (
    ok answer,
    record agent {
      memory = log_event codec event (some (details answer.0)) agent.memory;
      registry = registry;
    },
  )

  unfoldable pub stake_validator : Text → ℤ → Text → Agent Raw → Result (Bool × Reply) × Agent Raw
  stake_validator address stake stake_txid agent =
      logged
        (λ success. Fields.field "address" (Json.str address) (
          Fields.field "stake" (Json.int stake)
            (Fields.field "success" (Json.bool success) Fields.end)))
        (text "validator_registered")
        (register_validator address stake stake_txid agent.chain.height agent.registry) agent

  -- The vote's own time is that of the call.
  unfoldable pub submit_finality_vote :
      ℕ → Text → Text → Text → Text → Agent Raw → Result (Bool × Reply) × Agent Raw
  submit_finality_vote now validator source target signature agent =
      logged
        (λ success.
          Fields.field "validator" (Json.str validator)
            (Fields.field "target" (Json.str target) Fields.end))
        (text "finality_vote")
        (submit_vote now
          (record {
            validator_address = validator;
            source_checkpoint = source;
            target_checkpoint = target;
            stake_weight = 0;
            signature = signature;
            timestamp = now;
          })
          agent.registry)
        agent

  -- `start_node` up to the listeners: the genesis block, whose rejection is not looked at.
  unfoldable pub apply_genesis : ℕ → Result Block → Chain Raw → Result (Unit {0}) × Chain Raw
  apply_genesis now (err e) chain = (err e, chain)
  apply_genesis now (ok genesis) chain = elim (apply_block sha256 codec now genesis chain) [
    | err e ↦ (err e, chain)
    | ok out ↦ (ok tt, out.2)
  ]

  abbrev pub open_chain : ℕ → Chain Raw → Result (Unit {0}) × Chain Raw
  open_chain now chain =
      let applied = apply_genesis now (create_genesis_block sha256) chain in
      if ltb_ℤ chain.height (pos 0) then applied else (ok tt, chain)

  unfoldable pub start_node : ℕ → Agent Raw → Result (Unit {0}) × Agent Raw
  unfolding apply_genesis
  start_node now agent =
      let (opened, chain) = open_chain now agent.chain in
      elim opened [
        | err e ↦ (err e, record agent { chain = chain })
        | ok _ ↦ (
          ok tt,
          record agent {
            memory =
                log_event codec (text "node_started")
                  (some (Fields.field "height" (Json.int chain.height) Fields.end)) agent.memory;
            chain = chain;
            running = true;
          },
        )
      ]

module _ (codec : Codec) where
  open codec use {Raw}

  -- `stop_node`, for which of its four connections the close succeeds, in the order of the calls: the
  -- first that raises ends them. A closed memory refuses the event that is then written to it.
  unfoldable pub stop_node :
      (chain_closes utxos_close registry_closes memory_closes : Bool)
      → Agent Raw
      → Result (Unit {0}) × Agent Raw
  stop_node chain_closes utxos_close registry_closes memory_closes agent =
      let stopped = record agent { running = false } in
      let logged_stop = record stopped {
        memory = log_event codec (text "node_stopped") none stopped.memory;
      } in
      if chain_closes && utxos_close && registry_closes && memory_closes
      then (err database_error, stopped)
      else (ok tt, logged_stop)

-- `_on_tx_received`; `column` is what the text column of the table stores for a value.
module _ (codec : Codec) (column : Json → Result Text) where
  open codec use {Raw}

  abbrev pub keep_tx : Json → Fields → Memory Raw → Result (Unit {0}) × Memory Raw
  keep_tx txid tx_data memory = elim (column txid) [
    | err e ↦ (err e, memory)
    | ok name ↦ (
      ok tt,
      log_event codec (text "tx_received") (some (Fields.field "txid" txid Fields.end))
          (add_to_mempool codec name (Json.obj tx_data) (pos 0) memory).1,
    )
  ]

  unfoldable pub on_tx_received : Json → Memory Raw → Result (Unit {0}) × Memory Raw
  on_tx_received (Json.obj fs) memory =
      let txid = argument_or (Json.str []) "txid" fs in
      let kept = keep_tx txid fs memory in if is_true txid then kept else (ok tt, memory)
  on_tx_received tx_data memory = (err attribute_error, memory)

-- `_on_block_received`: the hash is sliced for the log, the block itself is dropped.
module _ (codec : Codec) where
  open codec use {Raw}

  abbrev pub log_block : Json → Memory Raw → Memory Raw
  log_block hash memory =
      log_event codec (text "block_received") (some (Fields.field "hash" hash Fields.end)) memory

  abbrev pub slice_block : Option Json → Memory Raw → Result (Unit {0}) × Memory Raw
  slice_block none memory = (ok tt, log_block Json.null memory)
  slice_block (some (Json.str hash)) memory = (ok tt, log_block (Json.str hash) memory)
  slice_block (some (Json.arr hash)) memory = (ok tt, log_block (Json.arr hash) memory)
  slice_block (some hash) memory = (err type_error, memory)

  unfoldable pub on_block_received : Json → Memory Raw → Result (Unit {0}) × Memory Raw
  on_block_received (Json.obj fs) memory = slice_block (find? "block_hash" fs) memory
  on_block_received block_data memory = (err attribute_error, memory)
