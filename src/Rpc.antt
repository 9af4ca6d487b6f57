-- ===== src/Rpc.antt =====
-- The JSON-RPC server (`JSONRPCServer`, agent/rpc_server.py): its table of methods, `_dispatch` and
-- `_handle_rpc`. A handler is a function of its arguments and of the state `S` behind the server.
-- `show` is `str` of a value and of an exception, `decode_basic` the decoding of a header's
-- credentials (`none` where it raises), `loads` is `json.loads` (`none` where it raises).
pub mod Answers
pub mod Access
pub mod Wiring
use bitchchain.Base.{
  Bool, true, false, not, ◌&&◌, ◌||◌, Option, none, some, List, [], ◌∷◌, ◌++◌, Text, text, text_beq,
  text_eq, if◌then◌else◌, take, drop, ◌==◌, ℤ, pos, negsuc, Result, ok, err, ◌>>=◌, Error,
  type_error, attribute_error, Table, select, replace,
}
use Prim.Native.String.{String}
use bitchchain.Json.{Json, Items, Fields, find?, argument_or}

abbrev pub parse_error : ℤ
parse_error = negsuc 32699

abbrev pub invalid_request : ℤ
invalid_request = negsuc 32599

abbrev pub method_not_found : ℤ
method_not_found = negsuc 32600

abbrev pub invalid_params : ℤ
invalid_params = negsuc 32601

abbrev pub internal_error : ℤ
internal_error = negsuc 32602

abbrev pub server_error_start : ℤ
server_error_start = negsuc 31999

-- How a handler is called: `handler(params)`, `handler(**params)` or `handler()`.
pub data Arguments : Type 0 where
  listed : Items → Arguments
  named : Fields → Arguments
  absent : Arguments

-- What it leaves: a value, a `JSONRPCError`, or another exception.
pub data Outcome : Type 0 where
  returned : (value : Json) → Outcome
  failed : (code : ℤ) (message : Text) (detail : Option Json) → Outcome
  raised : (error : Error) → Outcome

abbrev pub Handler : Type 0 → Type 0
Handler S = Arguments → S → Outcome × S

pub record Server (S : Type 0) : Type 0 where
  pub rpc_user : Text
  pub rpc_password : Text
  pub methods : Table Text (Handler S)

unfoldable pub register_method : {S : Type 0} → Text → Handler S → Server S → Server S
register_method name handler server = record server {
  methods = replace name handler server.methods;
}

-- The truth of a value in a test.
abbrev pub is_true : Json → Bool
is_true Json.null = false
is_true (Json.bool b) = b
is_true (Json.int (pos n)) = not (n == 0)
is_true (Json.int (negsuc n)) = true
is_true (Json.str []) = false
is_true (Json.str (c ∷ cs)) = true
is_true (Json.arr Items.nil) = false
is_true (Json.arr (Items.cons x xs)) = true
is_true (Json.obj Fields.end) = false
is_true (Json.obj (Fields.field k v fs)) = true

abbrev error_fields : ℤ → Text → Option Json → Fields
error_fields code message none =
    Fields.field "code" (Json.int code) (Fields.field "message" (Json.str message) Fields.end)
error_fields code message (some detail) =
    Fields.field "code" (Json.int code)
      (Fields.field "message" (Json.str message) (Fields.field "data" detail Fields.end))

unfoldable pub error_response : Json → ℤ → Text → Option Json → Json
error_response request_id code message detail = Json.obj (
    Fields.field "jsonrpc" (Json.str (text "2.0")) (
      Fields.field "error" (Json.obj (error_fields code message detail))
        (Fields.field "id" request_id Fields.end)))

unfoldable pub result_response : Json → Json → Json
result_response request_id result = Json.obj (
    Fields.field "jsonrpc" (Json.str (text "2.0"))
      (Fields.field "result" result (Fields.field "id" request_id Fields.end)))

abbrev pub arguments_of : Json → Arguments
arguments_of (Json.arr xs) = listed xs
arguments_of (Json.obj fs) = named fs
arguments_of j = absent

abbrev pub is_version : Json → Bool
is_version (Json.str s) = text_beq s (text "2.0")
is_version j = false

-- The answer to what a handler left.
unfoldable pub answer : (Error → Text) → Json → Outcome → Json
answer show_error request_id (returned value) = result_response request_id value
answer show_error request_id (failed code message detail) =
    error_response request_id code message detail
answer show_error request_id (raised error) =
    error_response request_id internal_error (show_error error) none

abbrev pub unknown_method : (Json → Text) → Json → Json → Json
unknown_method show request_id name =
    error_response request_id method_not_found (text "Method not found: " ++ show name) none

-- `decoded.split(":", 1)`, where there is a colon.
unfoldable pub split_colon : Text → Option (Text × Text)
split_colon [] = none
split_colon (c ∷ s) =
    let rest = split_colon s in
    if c == 58
    then some ([], s)
    else elim rest [ none ↦ none | some parts ↦ some (c ∷ parts.0, parts.1) ]

abbrev pub refuse : Text → Option Json
refuse message = some (error_response Json.null invalid_request message none)

abbrev pub check_credentials : {S : Type 0} → Server S → Option (Text × Text) → Option Json
check_credentials server none = refuse (text "Invalid authentication header")
check_credentials server (some (user, password)) =
    if not (text_beq user server.rpc_user) || not (text_beq password server.rpc_password)
    then refuse (text "Invalid credentials")
    else none

abbrev pub credentials_of : Option Text → Option (Text × Text)
credentials_of none = none
credentials_of (some decoded) = split_colon decoded

-- What the authentication answers, or `none` where it lets the request through.
unfoldable pub authenticate : {S : Type 0} → (Text → Option Text) → Server S → Text → Option Json
unfolding split_colon
authenticate decode_basic server header =
    let decoded = credentials_of (decode_basic (drop 6 header)) in
    if not (is_true (Json.str server.rpc_user) && is_true (Json.str server.rpc_password))
    then none
    else if text_beq (take 6 header) (text "Basic ")
    then check_credentials server decoded
    else refuse (text "Authentication required")

module _ (show : Json → Text) (show_error : Error → Text) {S : Type 0} where
  abbrev pub run_handler : Json → Json → Option (Handler S) → Arguments → S → Result Json × S
  run_handler request_id name none arguments state =
      (ok (unknown_method show request_id name), state)
  run_handler request_id name (some handler) arguments state =
      let (outcome, later) = handler arguments state in
      (ok (answer show_error request_id outcome), later)

  -- `self._methods.get(method_name)`: a list or a dictionary cannot be a key.
  abbrev pub call_method : Server S → Json → Json → Arguments → S → Result Json × S
  call_method server request_id (Json.arr xs) arguments state = (err type_error, state)
  call_method server request_id (Json.obj fs) arguments state = (err type_error, state)
  call_method server request_id (Json.str name) arguments state =
      run_handler request_id (Json.str name) (select name server.methods) arguments state
  call_method server request_id name arguments state =
      (ok (unknown_method show request_id name), state)

  abbrev pub dispatch_fields : Server S → Fields → S → Result Json × S
  dispatch_fields server fs state =
      let request_id = argument_or Json.null "id" fs in
      let name = argument_or Json.null "method" fs in
      let arguments = arguments_of (argument_or (Json.arr Items.nil) "params" fs) in
      let called = call_method server request_id name arguments state in
      if not (is_version (argument_or Json.null "jsonrpc" fs)) || not (is_true name)
      then (
        ok (error_response request_id invalid_request (text "Invalid JSON-RPC request") none),
        state,
      )
      else called

  -- `_dispatch`: its first statement is `request.get`, which only a dictionary has.
  unfoldable pub dispatch : Server S → Json → S → Result Json × S
  dispatch server (Json.obj fs) state = dispatch_fields server fs state
  dispatch server request state = (err attribute_error, state)

  -- The requests of a batch in their order; the first exception ends it.
  unfoldable pub dispatch_all : Server S → Items → S → Result Items × S
  unfolding dispatch
  dispatch_all server Items.nil state = (ok Items.nil, state)
  dispatch_all server (Items.cons request requests) state =
      let (first, between) = dispatch server request state in
      let (rest, later) = dispatch_all server requests between in
      elim first [
        | err e ↦ (err e, between)
        | ok response ↦ (rest >>= λ responses. ok (Items.cons response responses), later)
      ]

  -- `_handle_rpc` behind the authentication.
  unfoldable pub handle_body : Server S → Option Json → S → Result Json × S
  unfolding dispatch_all
  handle_body server none state =
      (ok (error_response Json.null parse_error (text "Parse error") none), state)
  handle_body server (some (Json.arr requests)) state =
      let (responses, later) = dispatch_all server requests state in
      (responses >>= λ xs. ok (Json.arr xs), later)
  handle_body server (some request) state = dispatch server request state

  -- `_handle_rpc`: the header's text ("" where there is none) and the body.
  unfoldable pub handle_rpc :
      (Text → Option Text) → (Text → Option Json) → Server S → Text → Text → S → Result Json × S
  handle_rpc decode_basic loads server header body state =
      let handled = handle_body server (loads body) state in
      elim (authenticate decode_basic server header) [
        | some response ↦ (ok response, state)
        | none ↦ handled
      ]
