-- ===== src/Memory.antt =====
-- The agent's store (`MemoryManager`, agent/memory/memory_manager.py): the key-value table, the
-- mempool and the session log. Times of insertion are left out, as nothing reads them; the order
-- of transactions with equal fees, which SQL leaves open, is that of their row ids. The research
-- notes, whose score is a floating-point number, are not modelled.
pub mod Laws
pub mod Best
use bitchchain.Base.{
  ℕ, ◌+◌, ◌-◌, Bool, true, false, ◌&&◌, Option, none, some, List, [], ◌∷◌, ◌++◌, reverse, Text,
  text, text_beq, text_beq_iff, Eq, text_eq, if◌then◌else◌, length, take, ℤ, pos, negsuc, leb_ℤ,
  Result, ok, err, overflow_error, ◌>>=◌, traverse, Table, select, delete, replace, ◌↔◌, ◌≡◌, arith,
}
use Prim.Native.String.{String}
use package.text.Mathlib.Text.{◌==◌}
use bitchchain.Json.{Json, Fields, Items, Codec, as_obj}
use bitchchain.Utxo.{fits_i64}

abbrev pub Name : Type 0
Name = Text × Text

abbrev pub name_beq : Name → Name → Bool
name_beq (n, k) (m, j) = text_beq n m && text_beq k j

pub name_beq_iff : (a b : Name) → (name_beq a b ≡ true) ↔ (a ≡ b)
name_beq_iff (n, k) (m, j) = ground (arith, text_beq_iff n m, text_beq_iff k j)

instance abbrev pub name_eq : Eq Name
name_eq = record { beq = name_beq; beq_iff = name_beq_iff }

-- A row of `mempool` behind its key, and a row of `session_log`.
pub record PoolRow (Raw : Type 0) : Type 0 where
  pub tx_json : Raw
  pub fee_satoshis : ℤ

pub record LogRow (Raw : Type 0) : Type 0 where
  pub event : Text
  pub details : Option Raw

pub record Memory (Raw : Type 0) : Type 0 where
  pub kv_store : Table Name Raw
  pub mempool : Table Text (PoolRow Raw)
  pub session_log : List (LogRow Raw)

-- `d[key] = value`
unfoldable pub put : String → Json → Fields → Fields
put k v Fields.end = Fields.field k v Fields.end
put k v (Fields.field j w fs) =
    let rest = put k v fs in if j == k then Fields.field j v fs else Fields.field j w rest

-- ORDER BY fee_satoshis DESC
module _ {Raw : Type 0} where
  unfoldable pub insert_row :
      Text × PoolRow Raw → Table Text (PoolRow Raw) → Table Text (PoolRow Raw)
  insert_row row [] = row ∷ []
  insert_row row (other ∷ rows) =
      let later = insert_row row rows in
      if leb_ℤ other.1.fee_satoshis row.1.fee_satoshis then row ∷ other ∷ rows else other ∷ later

  unfoldable pub by_fee : Table Text (PoolRow Raw) → Table Text (PoolRow Raw)
  unfolding insert_row
  by_fee [] = []
  by_fee (row ∷ rows) = insert_row row (by_fee rows)

module _ (codec : Codec) where
  open codec use {Raw, dumps, loads}

  unfoldable pub set : Text → Text → Json → Memory Raw → Memory Raw
  set namespace key value memory = record memory {
    kv_store = replace {K = Name} (namespace, key) (dumps value) memory.kv_store;
  }

  unfoldable pub get : Text → Text → Json → Memory Raw → Result Json
  get namespace key default memory = elim (select {K = Name} (namespace, key) memory.kv_store) [
    | none ↦ ok default
    | some value ↦ loads value
  ]

  unfoldable pub delete_key : Text → Text → Memory Raw → Memory Raw
  delete_key namespace key memory = record memory {
    kv_store = delete {K = Name} (namespace, key) memory.kv_store;
  }

  abbrev in_namespace : Text → Table Name Raw → Table Text Raw
  in_namespace namespace [] = []
  in_namespace namespace (((n, k), v) ∷ rows) =
      let rest = in_namespace namespace rows in if text_beq n namespace then (k, v) ∷ rest else rest

  unfoldable pub get_namespace : Text → Memory Raw → Result (Table Text Json)
  get_namespace namespace memory =
      traverse (λ row. loads row.1 >>= λ value. ok (row.0, value))
        (in_namespace namespace memory.kv_store)

  -- The tip, its height and the time at which it is saved.
  unfoldable pub save_chain_tip : Text → ℤ → Json → Memory Raw → Memory Raw
  unfolding set
  save_chain_tip tip_hash height now memory = set (text "chain") (text "tip_updated_at") now (
      set (text "chain") (text "height") (Json.int height)
        (set (text "chain") (text "tip_hash") (Json.str tip_hash) memory))

  unfoldable pub get_chain_tip : Memory Raw → Result Json
  unfolding get
  get_chain_tip memory = get (text "chain") (text "tip_hash") Json.null memory >>= λ tip_hash.
      get (text "chain") (text "height") (Json.int (negsuc 0)) memory >>= λ height.
      get (text "chain") (text "tip_updated_at") Json.null memory >>= λ tip_updated_at. ok (
        Json.obj (
          Fields.field "tip_hash" tip_hash (
            Fields.field "height" height
              (Fields.field "tip_updated_at" tip_updated_at Fields.end))))

  -- A fee that is no 64-bit integer cannot be bound to its column.
  unfoldable pub add_to_mempool : Text → Json → ℤ → Memory Raw → Result (Unit {0}) × Memory Raw
  add_to_mempool txid tx_dict fee_satoshis memory =
      let row : PoolRow Raw = record { tx_json = dumps tx_dict; fee_satoshis = fee_satoshis } in
      if fits_i64 fee_satoshis
      then (ok tt, record memory { mempool = replace txid row memory.mempool })
      else (err overflow_error, memory)

  unfoldable pub remove_from_mempool : Text → Memory Raw → Memory Raw
  remove_from_mempool txid memory = record memory { mempool = delete txid memory.mempool }

  -- One entry of the answer of `get_mempool`.
  abbrev pub pool_entry : Text × PoolRow Raw → Result Fields
  pool_entry (txid, row) = loads row.tx_json >>= λ tx. as_obj tx >>= λ fields.
      ok (put "fee_satoshis" (Json.int row.fee_satoshis) (put "txid" (Json.str txid) fields))

  unfoldable pub get_mempool : ℕ → Memory Raw → Result (List Fields)
  unfolding by_fee put
  get_mempool limit memory = traverse pool_entry (take limit (by_fee memory.mempool))

  unfoldable pub mempool_size : Memory Raw → ℕ
  mempool_size memory = length memory.mempool

  unfoldable pub clear_mempool_txids : List Text → Memory Raw → Memory Raw
  unfolding remove_from_mempool
  clear_mempool_txids [] memory = memory
  clear_mempool_txids (txid ∷ txids) memory =
      clear_mempool_txids txids (remove_from_mempool txid memory)

  unfoldable pub save_peers : Json → Memory Raw → Memory Raw
  unfolding set
  save_peers peers = set (text "network") (text "peers") peers

  unfoldable pub get_peers : Memory Raw → Result Json
  unfolding get
  get_peers = get (text "network") (text "peers") (Json.arr Items.nil)

  unfoldable pub save_config : Json → Memory Raw → Memory Raw
  unfolding set
  save_config config = set (text "agent") (text "config") config

  unfoldable pub get_config : Memory Raw → Result Json
  unfolding get
  get_config = get (text "agent") (text "config") (Json.obj Fields.end)

  -- `json.dumps(data) if data else None`
  abbrev log_details : Option Fields → Option Raw
  log_details none = none
  log_details (some Fields.end) = none
  log_details (some (Fields.field k v fs)) = some (dumps (Json.obj (Fields.field k v fs)))

  unfoldable pub log_event : Text → Option Fields → Memory Raw → Memory Raw
  log_event event details memory = record memory {
    session_log =
        memory.session_log ++ record { event = event; details = log_details details } ∷ [];
  }

  abbrev pub event_entry : LogRow Raw → Result (Text × Json)
  event_entry row = elim row.details [
    | none ↦ ok (row.event, Json.null)
    | some details ↦ loads details >>= λ value. ok (row.event, value)
  ]

  unfoldable pub get_recent_events : ℕ → Memory Raw → Result (List (Text × Json))
  get_recent_events limit memory = traverse event_entry (take limit (reverse memory.session_log))
