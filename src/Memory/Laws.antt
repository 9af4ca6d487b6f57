-- ===== src/Memory/Laws.antt =====
-- What the store keeps (agent/memory/memory_manager.py): the key-value table, the transactions
-- left in the mempool, and their order.
use bitchchain.Base.{
  ◌≡◌, refl, Bool, true, false, none, List, [], ◌∷◌, arith, Text, text_beq, text_eq, if◌then◌else◌,
  ◌≤ℤ◌, ok, Table, select, select-replace, select-delete,
}
use bitchchain.Json.{Json, Codec}
use bitchchain.Memory.{
  Name, name_beq, name_eq, PoolRow, Memory, set, get, insert_row, by_fee, remove_from_mempool,
  clear_mempool_txids,
}

module _ (codec : Codec) where
  open codec use {Raw}

  -- A value that is set is read back under its own namespace and key, and no other is touched.
  pub get-set :
      (namespace key other other_key : Text) (value default : Json) (memory : Memory Raw)
      → codec.loads (codec.dumps value) ≡ ok value
      → get codec other other_key default (set codec namespace key value memory) ≡ (
          if name_beq (namespace, key) (other, other_key)
          then ok value
          else get codec other other_key default memory)
  unfolding get set
  get-set namespace key other other_key value default memory reads = ground (
    arith,
    select-replace {K = Name} (namespace, key) (other, other_key) (codec.dumps value)
        memory.kv_store,
    reads,
  )

-- Whether a transaction id is in a list.
unfoldable pub listed : Text → List Text → Bool
listed t [] = false
listed t (x ∷ xs) = if text_beq x t then true else listed t xs

-- After a block's transactions are cleared, exactly these have left the mempool.
pub select-clear_mempool_txids :
    (codec : Codec) (txids : List Text) (t : Text) (memory : Memory codec.Raw)
    → select t (clear_mempool_txids codec txids memory).mempool
      ≡ (if listed t txids then none else select t memory.mempool)
unfolding clear_mempool_txids remove_from_mempool listed
select-clear_mempool_txids codec [] t memory = refl
select-clear_mempool_txids codec (x ∷ txids) t memory = ground (
  arith,
  select-clear_mempool_txids codec txids t (remove_from_mempool codec x memory),
  select-delete x t memory.mempool,
)

module _ {Raw : Type 0} where
  -- No row pays more than the row before it.
  unfoldable pub IsByFee : Table Text (PoolRow Raw) → Type 0
  IsByFee [] = Unit
  IsByFee (a ∷ []) = Unit
  IsByFee (a ∷ b ∷ rows) = (b.1.fee_satoshis ≤ℤ a.1.fee_satoshis) × IsByFee (b ∷ rows)

  insert_row-IsByFee :
      (row : Text × PoolRow Raw) (rows : Table Text (PoolRow Raw))
      → IsByFee rows
      → IsByFee (insert_row row rows)
  unfolding insert_row IsByFee
  insert_row-IsByFee row [] h = tt
  insert_row-IsByFee row (a ∷ []) h = ground arith
  insert_row-IsByFee row (a ∷ b ∷ rows) h = ground (arith, insert_row-IsByFee row (b ∷ rows))

  -- The rows that the mempool's query returns are in descending order of their fees.
  pub by_fee-IsByFee : (rows : Table Text (PoolRow Raw)) → IsByFee (by_fee rows)
  unfolding by_fee IsByFee
  by_fee-IsByFee [] = tt
  by_fee-IsByFee (row ∷ rows) = insert_row-IsByFee row (by_fee rows) (by_fee-IsByFee rows)
