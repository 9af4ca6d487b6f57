-- ===== src/Utxo/Spending.antt =====
-- Spending an output: it is there before, gone after, and nothing else moves.
use bitchchain.Base.{
  ℕ, suc, ◌≡◌, ◌≢◌, List, [], ◌∷◌, ℤ, arith, Text, replace, IsKeyed, select-delete, delete-IsKeyed,
  replace-IsKeyed, ok,
}
use bitchchain.Tx.{TxOutput, Transaction}
use bitchchain.Utxo.{
  outpoint_beq_iff, OutPoint, outpoint_eq, Utxos, UtxoSet, spend_input, get_utxo, add_from,
  add_outputs, utxo_row,
}

-- A spend leaves every other output as it was.
pub spend_input-other :
    (txid txid' : Text) (vout vout' : ℕ) (u : UtxoSet)
    → ◌≢◌ {A = OutPoint} (txid, vout) (txid', vout')
    → get_utxo txid' vout' (spend_input txid vout u).1 ≡ get_utxo txid' vout' u
unfolding spend_input get_utxo
spend_input-other txid txid' vout vout' u h = ground (
  arith,
  select-delete (txid, vout) (txid', vout') u.rows,
  outpoint_beq_iff (txid, vout) (txid', vout'),
)

-- No outpoint has two rows, neither among those that are read nor among those that are committed.
pub record IsKeyedSet (u : UtxoSet) : Type 0 where
  pub seen : IsKeyed u.rows
  pub kept : IsKeyed u.committed

-- Adding outputs and spending keep one row for each outpoint.
pub spend_input-IsKeyedSet :
    (txid : Text) (vout : ℕ) (u : UtxoSet) → IsKeyedSet u → IsKeyedSet (spend_input txid vout u).1
unfolding spend_input
spend_input-IsKeyedSet txid vout u h = ground (arith, delete-IsKeyed (txid, vout) u.rows h.seen)

add_from-IsKeyed :
    (txid : Text) (height : ℤ) (vout : ℕ) (os : List TxOutput) (u : Utxos)
    → IsKeyed u
    → IsKeyed (add_from txid height vout os u).1
unfolding add_from
add_from-IsKeyed txid height vout [] u h = h
add_from-IsKeyed txid height vout (o ∷ os) u h = ground (
  arith,
  replace-IsKeyed (txid, vout) (utxo_row o height) u h,
  add_from-IsKeyed txid height (suc vout) os (replace (txid, vout) (utxo_row o height) u),
)

pub add_outputs-IsKeyedSet :
    (tx : Transaction) (height : ℤ) (u : UtxoSet)
    → IsKeyedSet u
    → IsKeyedSet (add_outputs tx height u).1
unfolding add_outputs
add_outputs-IsKeyedSet tx height u h =
    ground (arith, add_from-IsKeyed tx.txid height 0 tx.outputs u.rows h.seen)

-- All that is read is committed.
abbrev pub IsCommitted : UtxoSet → Type 0
IsCommitted u = u.committed ≡ u.rows

-- Outputs that are added without an exception are committed, and all before them.
pub add_outputs-IsCommitted :
    (tx : Transaction) (height : ℤ) (u after : UtxoSet)
    → add_outputs tx height u ≡ (ok tt, after)
    → IsCommitted after
unfolding add_outputs
add_outputs-IsCommitted tx height u after h = ground arith
