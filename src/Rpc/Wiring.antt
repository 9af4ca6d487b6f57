-- ===== src/Rpc/Wiring.antt =====
-- The methods of the server before and after `wire_orchestrator`, `_help` and `status`
-- (agent/rpc_server.py, lines 65 to 87, 190 to 201 and 309 to 315).
use bitchchain.Base.{
  ◌≡◌, refl, Bool, true, false, none, List, [], ◌∷◌, ◌++◌, Text, text, text_beq, text_eq, ltb, ◌==◌,
  if◌then◌else◌, Table,
}
use bitchchain.Json.{Json}
use bitchchain.Rpc.{Handler, Server, returned, failed, server_error_start, register_method}

-- The order of Python's texts.
unfoldable pub text_before : Text → Text → Bool
text_before [] [] = false
text_before [] (d ∷ t) = true
text_before (c ∷ s) [] = false
text_before (c ∷ s) (d ∷ t) = let rest = text_before s t in if c == d then rest else ltb c d

unfoldable pub insert_name : Text → List Text → List Text
insert_name n [] = n ∷ []
insert_name n (m ∷ names) =
    let later = insert_name n names in if text_before m n then m ∷ later else n ∷ m ∷ names

abbrev pub help_lines : List Text → Text
help_lines [] = []
help_lines (name ∷ []) = text "  " ++ name
help_lines (name ∷ other ∷ names) = text "  " ++ (name ++ (text "\n" ++ help_lines (other ∷ names)))

abbrev pub core_names : List Text
core_names =
    text "getblockcount"
    ∷ text "getbestblockhash"
    ∷ text "getmempoolsize"
    ∷ text "getpeercount"
    ∷ text "getblock"
    ∷ text "getrawtransaction"
    ∷ text "sendrawtransaction"
    ∷ text "startmining"
    ∷ text "stopmining"
    ∷ text "getconsensusstatus"
    ∷ text "getnetworkinfo"
    ∷ text "getblockchaininfo"
    ∷ []

module _ {S : Type 0} where
  -- `sorted(self._methods.keys())`
  unfoldable pub method_names : Table Text (Handler S) → List Text
  unfolding insert_name
  method_names [] = []
  method_names ((name, handler) ∷ methods) = insert_name name (method_names methods)

  -- `_not_implemented_stub`
  abbrev pub not_implemented_stub : Handler S
  not_implemented_stub arguments state =
      (failed server_error_start (text "Method not wired to orchestrator") none, state)

  -- `_help`, on the methods when it is called
  unfoldable pub help : Table Text (Handler S) → Handler S
  unfolding method_names
  help methods arguments state = (
    returned (Json.str (text "Available RPC methods:\n" ++ help_lines (method_names methods))),
    state,
  )

  unfoldable pub register_all : List (Text × Handler S) → Server S → Server S
  register_all [] server = server
  register_all ((name, handler) ∷ methods) server =
      register_all methods (register_method name handler server)

  abbrev pub stubs : List Text → List (Text × Handler S)
  stubs [] = []
  stubs (name ∷ names) = (name, not_implemented_stub) ∷ stubs names

  -- `_register_core_methods`, with the handler of "help"
  unfoldable pub register_core_methods : Handler S → Server S → Server S
  unfolding register_all
  register_core_methods helps server =
      register_method (text "help") helps (register_all (stubs core_names) server)

  -- The registrations of `wire_orchestrator`, for the handlers by their names.
  abbrev pub wired : (Text → Handler S) → List Text → List (Text × Handler S)
  wired handlers [] = []
  wired handlers (name ∷ names) = (name, handlers name) ∷ wired handlers names

  unfoldable pub wire_orchestrator : (Text → Handler S) → Server S → Server S
  unfolding register_all
  wire_orchestrator handlers server = register_all (wired handlers core_names) server

  -- What `status` says of the methods and of the authentication.
  unfoldable pub server_status : Server S → List Text × Bool
  unfolding method_names
  server_status server =
      (method_names server.methods, elim server.rpc_user [ [] ↦ false | _ ∷ _ ↦ true ])

  -- Once the orchestrator is wired, the table of a fresh server has its handler for each of the
  -- twelve names and the help, and no stub is left.
  pub wire_orchestrator-methods :
      (helps : Handler S) (handlers : Text → Handler S) (user password : Text)
      → let fresh : Server S = record { rpc_user = user; rpc_password = password; methods = [] } in
        (wire_orchestrator handlers (register_core_methods helps fresh)).methods
        ≡ (text "help", helps) ∷ wired handlers core_names
  unfolding wire_orchestrator register_core_methods register_all register_method text_beq
  wire_orchestrator-methods helps handlers user password = refl
