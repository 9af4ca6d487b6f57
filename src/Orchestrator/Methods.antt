-- ===== src/Orchestrator/Methods.antt =====
-- The methods that the orchestrator gives to the JSON-RPC server (`wire_orchestrator`,
-- agent/rpc_server.py, lines 93 to 196). A hash with a sign, a space or an underscore, which
-- Python's `int` would read, is refused here.
use bitchchain.Base.{
  Bool, false, not, ◌||◌, Option, none, some, [], ◌∷◌, ◌++◌, Text, Bytes, text, text_beq,
  if◌then◌else◌, length, ◌==◌, pos, Result, ok, err, type_error, key_error, index_error, ◌⊎◌, inl,
  inr, List, or_raise, text_eq,
}
use bitchchain.Base.Strings.Numerals.{parse_hex}
use bitchchain.Json.{Json, Items, Fields, Codec, find?, argument_or}
use bitchchain.Tx.{Block}
use bitchchain.Tx.Dict.{block_to_dict}
use bitchchain.Chain.{Chain, get_block}
use bitchchain.Memory.{Memory, get_mempool, mempool_size, add_to_mempool}
use bitchchain.Node.{Node, peer_count}
use bitchchain.Rpc.{
  Handler, Arguments, listed, named, absent, Outcome, returned, failed, raised, invalid_params,
  server_error_start, is_true,
}
use bitchchain.Orchestrator.{Agent, Setting, MineReply, mined, exhausted, rejected, mine_and_submit}

-- The argument of a method: `handler(**params)` fits its one parameter `params`.
abbrev pub bind_params : Arguments → Result Json
bind_params (listed xs) = ok (Json.arr xs)
bind_params (named (Fields.field k v Fields.end)) =
    or_raise (find? "params" (Fields.field k v Fields.end)) type_error
bind_params (named fs) = err type_error
bind_params absent = err type_error

abbrev pub method : {S : Type 0} → (Json → S → Outcome × S) → Handler S
method body arguments state = elim (bind_params arguments) [
  | err e ↦ (raised e, state)
  | ok params ↦ body params state
]

-- `params[0]`
abbrev pub first_param : Json → Result Json
first_param (Json.arr (Items.cons x xs)) = ok x
first_param (Json.arr Items.nil) = err index_error
first_param (Json.str (c ∷ s)) = ok (Json.str (c ∷ []))
first_param (Json.str []) = err index_error
first_param (Json.obj fs) = err key_error
first_param j = err type_error

abbrev pub usage : Text → Outcome
usage message = failed invalid_params message none

-- The checks of a block's hash or of a transaction's id.
abbrev pub check_hash : Text → Json → Outcome ⊎ Text
check_hash name (Json.str hash) =
    let readable : Outcome ⊎ Text = elim (parse_hex hash) [
      | ok n ↦ inr hash
      | err e ↦ inl (usage (name ++ text " must be valid hexadecimal"))
    ] in
    if length hash == 64
    then readable
    else inl (usage (name ++ text " must be a 64-character hex string"))
check_hash name j = inl (usage (name ++ text " must be a 64-character hex string"))

-- The first parameter as a hash, or how the method ends.
unfoldable pub hash_param : Text → Text → Json → Outcome ⊎ Text
hash_param message name params =
    let checked : Outcome ⊎ Text = elim (first_param params) [
      | err e ↦ inl (raised e)
      | ok j ↦ check_hash name j
    ] in
    if is_true params then checked else inl (usage message)

-- `params[1] if len(params) > 1 else 1`, compared with 0.
abbrev pub wants_hash : Json → Bool
wants_hash (Json.arr (Items.cons x (Items.cons (Json.int (pos n)) xs))) = n == 0
wants_hash (Json.arr (Items.cons x (Items.cons (Json.bool b) xs))) = not b
wants_hash params = false

-- The first transaction of the list with this id.
unfoldable pub find_tx : Text → List Fields → Outcome
find_tx txid [] = failed server_error_start (text "Transaction not found: " ++ txid) none
find_tx txid (fs ∷ rest) =
    let later = find_tx txid rest in
    elim (find? "txid" fs) [
      | some (Json.str t) ↦ if text_beq t txid then returned (Json.obj fs) else later
      | _ ↦ later
    ]

module _ (codec : Codec) where
  open codec use {Raw}

  abbrev pub show_block : Json → Text → Result (Option Block) → Outcome
  show_block params hash (err e) = raised e
  show_block params hash (ok none) =
      failed server_error_start (text "Block not found: " ++ hash) none
  show_block params hash (ok (some block)) =
      returned (if wants_hash params then Json.str block.block_hash else block_to_dict block)

  unfoldable pub getblock : Json → Chain Raw → Outcome
  unfolding hash_param
  getblock params chain =
      elim (hash_param (text "Usage: getblock <block_hash> [verbosity]") (text "block_hash")
        params) [
          | inl ended ↦ ended
          | inr hash ↦ show_block params hash (get_block codec chain hash)
        ]

  unfoldable pub getrawtransaction : Json → Memory Raw → Outcome
  unfolding hash_param find_tx
  getrawtransaction params memory =
      elim (hash_param (text "Usage: getrawtransaction <txid>") (text "txid") params) [
        | inl ended ↦ ended
        | inr txid ↦ elim (get_mempool codec 1000 memory) [
          | err e ↦ raised e
          | ok entries ↦ find_tx txid entries
        ]
      ]

  -- The checked transaction is written to the mempool with no fee.
  abbrev pub accept_tx : Fields → Json → Memory Raw → Outcome × Memory Raw
  accept_tx fs (Json.str txid) memory =
      if length txid == 64
      then (returned (Json.str txid), (add_to_mempool codec txid (Json.obj fs) (pos 0) memory).1)
      else (usage (text "Transaction must have a valid 64-char hex txid"), memory)
  accept_tx fs j memory = (usage (text "Transaction must have a valid 64-char hex txid"), memory)

  abbrev pub accept_data : Json → Memory Raw → Outcome × Memory Raw
  accept_data (Json.obj fs) memory = accept_tx fs (argument_or (Json.str []) "txid" fs) memory
  accept_data j memory = (usage (text "Transaction must be a JSON object"), memory)

  abbrev pub accept_param : (Text → Option Json) → Result Json → Memory Raw → Outcome × Memory Raw
  accept_param loads_text (err e) memory = (raised e, memory)
  accept_param loads_text (ok (Json.str s)) memory = elim (loads_text s) [
    | none ↦ (usage (text "Invalid transaction JSON"), memory)
    | some j ↦ accept_data j memory
  ]
  accept_param loads_text (ok j) memory = accept_data j memory

  unfoldable pub sendrawtransaction :
      (Text → Option Json) → Json → Memory Raw → Outcome × Memory Raw
  sendrawtransaction loads_text params memory =
      let accepted = accept_param loads_text (first_param params) memory in
      if is_true params
      then accepted
      else (usage (text "Usage: sendrawtransaction <tx_hex_or_json>"), memory)

-- `params and params[0] in (True, "true", 1, "regtest")`
abbrev pub asks_regtest : Json → Bool
asks_regtest (Json.bool b) = b
asks_regtest (Json.int (pos n)) = n == 1
asks_regtest (Json.str s) = text_beq s (text "true") || text_beq s (text "regtest")
asks_regtest j = false

abbrev pub mine_text : MineReply → Text
mine_text (mined hash height tx_count size) = text "Block mined: " ++ hash
mine_text exhausted = text "Mining failed: Mining failed (nonce exhausted)"
mine_text rejected = text "Mining failed: Block rejected by chain"

abbrev pub mine_outcome : Result MineReply → Outcome
mine_outcome (ok reply) = returned (Json.str (mine_text reply))
mine_outcome (err e) = raised e

module _ (sha256 ripemd160 : Bytes → Bytes) (codec : Codec) where
  open codec use {Raw}

  abbrev pub run_mining : Setting → Bool → Agent Raw → Outcome × Agent Raw
  run_mining setting regtest agent =
      let (reply, later) = mine_and_submit sha256 ripemd160 codec setting regtest agent in
      (mine_outcome reply, later)

  unfoldable pub startmining : Setting → Json → Agent Raw → Outcome × Agent Raw
  startmining setting params agent =
      let asked : Outcome × Agent Raw = elim (first_param params) [
        | err e ↦ (raised e, agent)
        | ok j ↦ run_mining setting (asks_regtest j) agent
      ] in
      let plain = run_mining setting false agent in if is_true params then asked else plain

  unfoldable pub getblockcount : Agent Raw → Outcome
  getblockcount agent = returned (Json.int agent.chain.height)

  -- `tip_hash or ""`
  unfoldable pub getbestblockhash : Agent Raw → Outcome
  getbestblockhash agent =
      returned (Json.str (elim agent.chain.chain_tip [ none ↦ [] | some tip ↦ tip ]))

  unfoldable pub getmempoolsize : Agent Raw → Outcome
  getmempoolsize agent = returned (Json.int (pos (mempool_size codec agent.memory)))

unfoldable pub getpeercount : Node → Outcome
getpeercount node = returned (Json.int (pos (peer_count node)))

abbrev pub stopmining : Outcome
stopmining =
    returned (Json.str (text "Mining stopped (single-shot miner, no background thread to stop)"))
