-- ===== src/Rpc/Answers.antt =====
-- The answers of `_dispatch` (agent/rpc_server.py, lines 256 to 303), alone and in a batch.
use bitchchain.Base.{
  ◌≡◌, refl, Bool, true, false, not, Option, none, some, Text, text, Result, ok, err, ◌++◌, ℤ,
  Error, select, text_eq, Bool-cases, inl, inr, ◌||◌,
}
use bitchchain.Json.{Json, Items, Fields, find?, argument_or}
use bitchchain.Rpc.{
  Server, Handler, Outcome, returned, failed, raised, Arguments, arguments_of, is_true, is_version,
  error_response, result_response, answer, internal_error, method_not_found, invalid_request,
  run_handler, call_method, dispatch, dispatch_all,
}

abbrev has : {A : Type 0} → Option A → Bool
has none = false
has (some x) = true

-- A response with this id: a dictionary of the version with either a result or an error.
abbrev pub IsResponse : Json → Json → Type 0
IsResponse request_id (Json.obj fs) =
    (find? "jsonrpc" fs ≡ some (Json.str (text "2.0")))
    × (find? "id" fs ≡ some request_id)
    × (has (find? "result" fs) ≡ not (has (find? "error" fs)))
IsResponse request_id j = false ≡ true

abbrev pub is_scalar : Json → Bool
is_scalar (Json.arr xs) = false
is_scalar (Json.obj fs) = false
is_scalar j = true

abbrev pub id_of : Fields → Json
id_of fs = argument_or Json.null "id" fs

-- A dictionary whose method, where it has one, is neither a list nor a dictionary.
abbrev pub IsRequest : Json → Type 0
IsRequest (Json.obj fs) = is_scalar (argument_or Json.null "method" fs) ≡ true
IsRequest j = false ≡ true

abbrev pub AreRequests : Items → Type 0
AreRequests Items.nil = Unit
AreRequests (Items.cons x xs) = IsRequest x × AreRequests xs

abbrev pub Answers : Json → Json → Type 0
Answers (Json.obj fs) response = IsResponse (id_of fs) response
Answers j response = false ≡ true

-- The responses answer the requests one by one, in their order.
abbrev pub AnswersAll : Items → Items → Type 0
AnswersAll Items.nil Items.nil = Unit
AnswersAll Items.nil (Items.cons y ys) = false ≡ true
AnswersAll (Items.cons x xs) Items.nil = false ≡ true
AnswersAll (Items.cons x xs) (Items.cons y ys) = Answers x y × AnswersAll xs ys

error_response-IsResponse :
    (request_id : Json) (code : ℤ) (message : Text) (detail : Option Json)
    → IsResponse request_id (error_response request_id code message detail)
unfolding error_response find?
error_response-IsResponse request_id code message detail = (refl, refl, refl)

result_response-IsResponse :
    (request_id value : Json) → IsResponse request_id (result_response request_id value)
unfolding result_response find?
result_response-IsResponse request_id value = (refl, refl, refl)

answer-IsResponse :
    (show_error : Error → Text) (request_id : Json) (outcome : Outcome)
    → IsResponse request_id (answer show_error request_id outcome)
unfolding answer
answer-IsResponse show_error request_id (returned value) =
    result_response-IsResponse request_id value
answer-IsResponse show_error request_id (failed code message detail) =
    error_response-IsResponse request_id code message detail
answer-IsResponse show_error request_id (raised error) =
    error_response-IsResponse request_id internal_error (show_error error) none

-- Whatever came out is a response with this id.
abbrev Responds : Json → Result Json → Type 0
Responds request_id (ok response) = IsResponse request_id response
Responds request_id (err e) = false ≡ true

module _ (show : Json → Text) (show_error : Error → Text) {S : Type 0} where
  run_handler-Responds :
      (request_id name : Json) (found : Option (Handler S)) (arguments : Arguments) (state : S)
      → Responds request_id (run_handler show show_error request_id name found arguments state).0
  run_handler-Responds request_id name none arguments state =
      error_response-IsResponse request_id method_not_found (text "Method not found: " ++ show name)
        none
  run_handler-Responds request_id name (some handler) arguments state =
      answer-IsResponse show_error request_id (handler arguments state).0

  call_method-Responds :
      (server : Server S) (request_id name : Json) (arguments : Arguments) (state : S)
      → is_scalar name ≡ true
      → Responds request_id (call_method show show_error server request_id name arguments state).0
  call_method-Responds server request_id (Json.arr xs) arguments state h = absurd (cc h)
  call_method-Responds server request_id (Json.obj fs) arguments state h = absurd (cc h)
  call_method-Responds server request_id (Json.str s) arguments state h =
      run_handler-Responds request_id (Json.str s) (select s server.methods) arguments state
  call_method-Responds server request_id Json.null arguments state h =
      run_handler-Responds request_id Json.null none arguments state
  call_method-Responds server request_id (Json.bool b) arguments state h =
      run_handler-Responds request_id (Json.bool b) none arguments state
  call_method-Responds server request_id (Json.int i) arguments state h =
      run_handler-Responds request_id (Json.int i) none arguments state

  dispatch-Responds :
      (server : Server S) (fs : Fields) (state : S)
      → IsRequest (Json.obj fs)
      → Responds (id_of fs) (dispatch show show_error server (Json.obj fs) state).0
  unfolding dispatch
  dispatch-Responds server fs state h =
      let name = argument_or Json.null "method" fs in
      elim (Bool-cases
        (not (is_version (argument_or Json.null "jsonrpc" fs)) || not (is_true name))) [
          | inl refused ↦ rw refused (
              error_response-IsResponse (id_of fs) invalid_request (text "Invalid JSON-RPC request")
                none)
          | inr valid ↦ rw valid (
              call_method-Responds server (id_of fs) name
                (arguments_of (argument_or (Json.arr Items.nil) "params" fs)) state h)
        ]

  -- A dictionary whose method is neither a list nor a dictionary is always answered, whatever its
  -- handler does: with a dictionary of the same id and version that has either a result or an
  -- error.
  pub dispatch-Answers :
      (server : Server S) (request : Json) (state : S)
      → IsRequest request
      → (response : Json) × ((dispatch show show_error server request state).0 ≡ ok response)
        × Answers request response
  dispatch-Answers server (Json.obj fs) state h =
      answered (dispatch show show_error server (Json.obj fs) state).0
        (dispatch-Responds server fs state h)
    where
      answered :
          (out : Result Json)
          → Responds (id_of fs) out
          → (response : Json) × (out ≡ ok response) × IsResponse (id_of fs) response
      answered (ok response) good = (response, refl, good)
      answered (err e) bad = absurd (cc bad)
  dispatch-Answers server (Json.arr xs) state h = absurd (cc h)
  dispatch-Answers server (Json.str t) state h = absurd (cc h)
  dispatch-Answers server Json.null state h = absurd (cc h)
  dispatch-Answers server (Json.bool b) state h = absurd (cc h)
  dispatch-Answers server (Json.int i) state h = absurd (cc h)

  -- A batch whose items are all dictionaries with a method, if any, that is neither a list nor a
  -- dictionary is answered by as many responses, each with the id of the request at its place, a
  -- version, and either a result or an error.
  pub dispatch_all-AnswersAll :
      (server : Server S) (requests : Items) (state : S)
      → AreRequests requests
      → (responses : Items) × ((dispatch_all show show_error server requests state).0
          ≡ ok responses)
        × AnswersAll requests responses
  unfolding dispatch_all
  dispatch_all-AnswersAll server Items.nil state h = (Items.nil, refl, tt)
  dispatch_all-AnswersAll server (Items.cons request requests) state h =
      let out = dispatch show show_error server request state in
      let (first, at, good) = dispatch-Answers server request state h.0 in
      let (others, later, all_good) = dispatch_all-AnswersAll server requests out.1 h.1 in
      (Items.cons first others, rw (dispatch_all, at, later) refl, (good, all_good))
