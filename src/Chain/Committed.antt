-- ===== src/Chain/Committed.antt =====
-- The set of unspent outputs behind the transactions of a block: one row for each outpoint, and, where
-- none raised, everything committed (`Blockchain.apply_block`, lines 347 to 356).
use bitchchain.Base.{ℤ, ◌≡◌, ap, List, [], ◌∷◌, arith, ok}
use mathlib.Core.Path.{subst}
use bitchchain.Tx.{TxInput, Transaction}
use bitchchain.Utxo.{UtxoSet, spend_input}
use bitchchain.Utxo.Spending.{
  IsKeyedSet, spend_input-IsKeyedSet, add_outputs-IsKeyedSet, IsCommitted, add_outputs-IsCommitted,
}
use bitchchain.Chain.{spend_all, apply_tx, apply_txs}
use bitchchain.Chain.Accept.{BeginsWithCoinbase}

spend_all-IsKeyedSet :
    (inps : List TxInput) (u : UtxoSet) → IsKeyedSet u → IsKeyedSet (spend_all inps u).1
unfolding spend_all
spend_all-IsKeyedSet [] u h = h
spend_all-IsKeyedSet (inp ∷ inps) u h = ground (
  arith,
  spend_input-IsKeyedSet inp.prev_txid inp.prev_vout u h,
  spend_all-IsKeyedSet inps (spend_input inp.prev_txid inp.prev_vout u).1,
)

apply_tx-IsKeyedSet :
    (height : ℤ) (tx : Transaction) (u : UtxoSet)
    → IsKeyedSet u
    → IsKeyedSet (apply_tx height tx u).1
unfolding apply_tx
apply_tx-IsKeyedSet height tx u h = ground (
  arith,
  spend_all-IsKeyedSet tx.inputs u h,
  add_outputs-IsKeyedSet tx height u h,
  add_outputs-IsKeyedSet tx height (spend_all tx.inputs u).1,
)

pub apply_txs-IsKeyedSet :
    (height : ℤ) (txs : List Transaction) (u : UtxoSet)
    → IsKeyedSet u
    → IsKeyedSet (apply_txs height txs u).1
unfolding apply_txs
apply_txs-IsKeyedSet height [] u h = h
apply_txs-IsKeyedSet height (tx ∷ txs) u h = ground (
  arith,
  apply_tx-IsKeyedSet height tx u h,
  apply_txs-IsKeyedSet height txs (apply_tx height tx u).1,
)

-- A transaction that is applied without an exception ends with a commit of all rows.
apply_tx-IsCommitted :
    (height : ℤ) (tx : Transaction) (u after : UtxoSet)
    → apply_tx height tx u ≡ (ok tt, after)
    → IsCommitted after
unfolding apply_tx
apply_tx-IsCommitted height tx u after h = ground (
  arith,
  add_outputs-IsCommitted tx height u after,
  add_outputs-IsCommitted tx height (spend_all tx.inputs u).1 after,
)

apply_tx-first :
    (height : ℤ) (tx : Transaction) (txs : List Transaction) (u after : UtxoSet)
    → apply_txs height (tx ∷ txs) u ≡ (ok tt, after)
    → (mid : UtxoSet) × (apply_tx height tx u ≡ (ok tt, mid))
      × (apply_txs height txs mid ≡ (ok tt, after))
unfolding apply_txs
apply_tx-first height tx txs u after h = ((apply_tx height tx u).1, ground arith, ground arith)

apply_txs-IsCommitted :
    (height : ℤ) (tx : Transaction) (txs : List Transaction) (u after : UtxoSet)
    → apply_txs height (tx ∷ txs) u ≡ (ok tt, after)
    → IsCommitted after
unfolding apply_txs
apply_txs-IsCommitted height tx [] u after h =
    let (mid, first, rest) = apply_tx-first height tx [] u after h in
    let same : mid ≡ after = ap (λ p. p.1) rest in
    subst IsCommitted same (apply_tx-IsCommitted height tx u mid first)
apply_txs-IsCommitted height tx (next ∷ txs) u after h =
    let (mid, first, rest) = apply_tx-first height tx (next ∷ txs) u after h in
    apply_txs-IsCommitted height next txs mid after rest

pub block-IsCommitted :
    (height : ℤ) (txs : List Transaction) (u after : UtxoSet)
    → BeginsWithCoinbase txs
    → apply_txs height txs u ≡ (ok tt, after)
    → IsCommitted after
block-IsCommitted height [] u after h e = absurd h
block-IsCommitted height (tx ∷ txs) u after h e = apply_txs-IsCommitted height tx txs u after e
