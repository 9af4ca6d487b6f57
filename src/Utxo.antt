-- ===== src/Utxo.antt =====
-- `class UTXOSet` of agent/modules/blockchain_core.py (lines 164 to 223): the table as the set's own
-- connection sees it, and as it is committed. A call that raises leaves its rows uncommitted.
pub mod Spending
use bitchchain.Base.{
  ℕ, suc, ◌^◌, ◌≡◌, Bool, true, false, ◌&&◌, Option, none, some, List, [], ◌∷◌, length, ℤ, pos,
  negsuc, ltb, ◌==◌, ==_iff, ◌↔◌, arith, if◌then◌else◌, Text, text_beq, text_beq_iff, Eq, Table,
  select, delete, replace, contains, Result, ok, err, overflow_error,
}
use bitchchain.Tx.{TxInput, TxOutput, Transaction}

abbrev pub OutPoint : Type 0
OutPoint = Text × ℕ

abbrev pub outpoint_beq : OutPoint → OutPoint → Bool
outpoint_beq (s, m) (t, n) = text_beq s t && m == n

pub outpoint_beq_iff : (a b : OutPoint) → (outpoint_beq a b ≡ true) ↔ (a ≡ b)
outpoint_beq_iff (s, m) (t, n) = ground (arith, text_beq_iff s t)

instance abbrev pub outpoint_eq : Eq OutPoint
outpoint_eq = record { beq = outpoint_beq; beq_iff = outpoint_beq_iff }

-- The columns behind the key.
pub record UtxoRow : Type 0 where
  pub value_satoshis : ℤ
  pub script_pubkey : Text
  pub ct_commitment : Option Text
  pub block_height : ℤ

abbrev pub Utxos : Type 0
Utxos = Table OutPoint UtxoRow

-- The connection: the rows that it reads, and those that the file holds. The rows that it has written
-- and not committed are read by its later calls and committed with them, and lost when it is closed.
pub record UtxoSet : Type 0 where
  pub rows : Utxos
  pub committed : Utxos

-- The set behind a commit, or when the database has just been opened.
abbrev pub all_committed : Utxos → UtxoSet
all_committed rows = record { rows = rows; committed = rows }

-- A call on the set: what it writes before it raises stays visible.
abbrev pub UtxoCall : Type 0 → Type 0
UtxoCall A = UtxoSet → Result A × UtxoSet

infixl 5 ◌>>>◌
abbrev pub ◌>>>◌ : {A : Type 0} → UtxoCall (Unit {0}) → UtxoCall A → UtxoCall A
◌>>>◌ m k u = let (r, u') = m u in elim r [ ok a ↦ k u' | err e ↦ (err e, u') ]

-- SQLite's INTEGER: Python refuses to bind any other number, with `OverflowError`.
abbrev pub fits_i64 : ℤ → Bool
fits_i64 (pos n) = ltb n (2 ^ 63)
fits_i64 (negsuc n) = ltb n (2 ^ 63)

abbrev pub utxo_row : TxOutput → ℤ → UtxoRow
utxo_row o height = record {
  value_satoshis = o.value_satoshis;
  script_pubkey = o.script_pubkey;
  ct_commitment = o.ct_commitment;
  block_height = height;
}

-- The loop of `add_outputs`, from output number `vout` on.
unfoldable pub add_from : Text → ℤ → ℕ → List TxOutput → Utxos → Result (Unit {0}) × Utxos
add_from txid height vout [] u = (ok tt, u)
add_from txid height vout (o ∷ os) u =
    if fits_i64 o.value_satoshis && fits_i64 height
    then add_from txid height (suc vout) os (replace (txid, vout) (utxo_row o height) u)
    else (err overflow_error, u)

unfoldable pub add_outputs : Transaction → ℤ → UtxoCall (Unit {0})
unfolding add_from
add_outputs tx block_height u =
    let (result, rows) = add_from tx.txid block_height 0 tx.outputs u.rows in
    elim result [ ok a ↦ (ok a, all_committed rows) | err e ↦ (err e, record u { rows = rows }) ]

-- What a row is read back as; the range proof is not stored.
abbrev pub row_output : UtxoRow → TxOutput
row_output r = record {
  value_satoshis = r.value_satoshis;
  script_pubkey = r.script_pubkey;
  ct_commitment = r.ct_commitment;
  ct_range_proof = none;
}

unfoldable pub spend_input : Text → ℕ → UtxoCall (Option TxOutput)
spend_input txid vout u =
    if fits_i64 (pos vout)
    then elim (select (txid, vout) u.rows) [
      | none ↦ (ok none, u)
      | some r ↦ (ok (some (row_output r)), all_committed (delete (txid, vout) u.rows))
    ]
    else (err overflow_error, u)

unfoldable pub get_utxo : Text → ℕ → UtxoSet → Result (Option TxOutput)
get_utxo txid vout u =
    if fits_i64 (pos vout)
    then elim (select (txid, vout) u.rows) [ none ↦ ok none | some r ↦ ok (some (row_output r)) ]
    else err overflow_error

-- `UTXOSet.exists`
unfoldable pub utxo_exists : Text → ℕ → UtxoSet → Result Bool
utxo_exists txid vout u =
    if fits_i64 (pos vout) then ok (contains (txid, vout) u.rows) else err overflow_error

-- `UTXOSet.size`
unfoldable pub utxo_count : UtxoSet → ℕ
utxo_count u = length u.rows
