-- ===== src/Tests/Agents.antt =====
-- The agent and its JSON-RPC server at concrete values.
use bitchchain.Base.{
  ℕ, suc, arith, replicate, ◌≡◌, ◌≢◌, ◌↔◌, refl, true, false, Option, none, some, [], ◌∷◌, Text,
  text, pos, ok, Error, text_beq,
}
use bitchchain.Json.{Json, Items, Fields, argument_or, as_obj}
use bitchchain.Rpc.{
  Server, Handler, returned, authenticate, split_colon, handle_body, handle_rpc, dispatch,
  dispatch_all,
}
use bitchchain.Rpc.Answers.{AnswersAll, dispatch_all-AnswersAll}
use bitchchain.Rpc.Access.{IsAuthorized, authenticate_iff, handle_rpc-IsAuthorized}
use bitchchain.Orchestrator.{Agent, Setting, mine_and_submit, propose_block, readable_txs}
use bitchchain.Orchestrator.Pool.{Settled, mine_and_submit-Settled}
use bitchchain.Transfers.{CtInput, CtTransaction, ct_to_dict}
use bitchchain.Orchestrator.Skipped.{readable_txs-skip}
use bitchchain.Memory.{put, Memory, get_mempool}
use bitchchain.Chain.{load_tip}
use bitchchain.Base.{◌>>=◌}
use bitchchain.Tests.{zero_sha, json_store}

-- A counter of calls, which every call of its one method raises.
abbrev count : Handler ℕ
count arguments n = (returned (Json.int (pos n)), suc n)

abbrev guarded_server : Server ℕ
guarded_server = record {
  rpc_user = text "u";
  rpc_password = text "p";
  methods = (text "count", count) ∷ [];
}

abbrev show_nothing : Json → Text
show_nothing j = []

abbrev show_no_error : Error → Text
show_no_error e = []

abbrev count_request : Json
count_request = Json.obj (
    Fields.field "jsonrpc" (Json.str (text "2.0")) (
      Fields.field "method" (Json.str (text "count"))
        (Fields.field "id" (Json.int (pos 9)) Fields.end)))

abbrev two_requests : Items
two_requests = Items.cons count_request (Items.cons (Json.obj Fields.end) Items.nil)

dispatch_all-AnswersAll_example :
    (responses : Items) × ((dispatch_all show_nothing show_no_error guarded_server two_requests 0).0
      ≡ ok responses)
    × AnswersAll two_requests responses
unfolding argument_or
dispatch_all-AnswersAll_example =
    dispatch_all-AnswersAll show_nothing show_no_error guarded_server two_requests 0
      (refl, (refl, tt))

abbrev plain : Text → Option Text
plain t = some t

authenticate_iff_example :
    (authenticate plain guarded_server (text "Basic u:p") ≡ none)
    ↔ IsAuthorized plain guarded_server (text "Basic u:p")
authenticate_iff_example = authenticate_iff plain guarded_server (text "Basic u:p") refl

abbrev one_body : Text → Option Json
one_body t = some count_request

counted_once :
    (handle_rpc show_nothing show_no_error plain one_body guarded_server (text "Basic u:p") [] 0).1
    ≡ 1
unfolding handle_rpc handle_body dispatch authenticate split_colon text_beq argument_or
counted_once = refl

counted :
    (handle_rpc show_nothing show_no_error plain one_body guarded_server (text "Basic u:p") [] 0).1
    ≢ 0
counted same = absurd (omega (arith, counted_once, same))

handle_rpc-IsAuthorized_example : IsAuthorized plain guarded_server (text "Basic u:p")
handle_rpc-IsAuthorized_example =
    handle_rpc-IsAuthorized plain guarded_server show_nothing show_no_error one_body
      (text "Basic u:p") [] 0 refl counted

abbrev no_memory : Memory Json
no_memory = record { kv_store = []; mempool = []; session_log = [] }

abbrev new_agent : Agent json_store.Raw
unfolding load_tip
new_agent = record {
  memory = no_memory;
  chain = load_tip [] [] none;
  registry = record { validators = []; checkpoints = [] };
  running = false;
  tasks = [];
}

abbrev pub setting : Setting
setting = record {
  miner_address = text "m";
  now = 1000;
  submitted_at = 1001;
  stamp = Json.int (pos 1000);
  clock = λ n. 1000;
}

mine_and_submit-Settled_example :
    Settled zero_sha zero_sha json_store setting
      (get_mempool json_store 1000 new_agent.memory >>= λ entries.
        propose_block zero_sha zero_sha json_store setting true new_agent.chain
          (readable_txs entries))
      new_agent
      (mine_and_submit zero_sha zero_sha json_store setting true new_agent)
mine_and_submit-Settled_example =
    mine_and_submit-Settled zero_sha zero_sha json_store setting true new_agent

abbrev sent_tx : Json
sent_tx =
    Json.arr (
      Items.cons (Json.obj (Fields.field "txid" (Json.str (replicate 64 49)) Fields.end)) Items.nil)

abbrev one_input : CtInput
one_input = record { txid = text "a"; vout = 0; blinding_hex = text "0x0" }

abbrev hidden : CtTransaction
hidden = record {
  version = 2;
  sender_address = text "s";
  inputs = one_input ∷ [];
  outputs = [];
  fee_satoshis = pos 5;
  fee_commitment_hex = [];
  excess_sig = [];
  txid = text "t";
}

abbrev hidden_entry : Fields
hidden_entry = elim (ct_to_dict hidden) [
  | Json.obj fs ↦ put "fee_satoshis" (Json.int (pos 5)) (put "txid" (Json.str (text "t")) fs)
  | _ ↦ Fields.end
]

readable_txs-skip_example : readable_txs (hidden_entry ∷ []) ≡ readable_txs []
unfolding put ct_to_dict as_obj
readable_txs-skip_example =
    readable_txs-skip json_store hidden one_input [] (text "t") (pos 5) hidden_entry [] refl refl
      refl
