-- ===== src/Orchestrator/Skipped.antt =====
-- What the agent's miner makes of the confidential transactions in its mempool (agent/orchestrator.py,
-- lines 111 to 123; `to_dict`, agent/modules/privacy_layer.py, line 385).
use bitchchain.Base.{◌≡◌, refl, ap, ◌∙◌, ◌∷◌, List, Text, ℤ, ok, err, type_error}
use bitchchain.Json.{Json, Fields, Codec, as_obj, argument_or, find?, keywords, traverse_items}
use bitchchain.Tx.Dict.{input_of_dict}
use bitchchain.Transfers.{CtInput, CtTransaction, ct_input_to_dict, ct_to_dict, items_of}
use bitchchain.Memory.{pool_entry, put}
use bitchchain.Orchestrator.{tx_of_entry, readable_txs}

-- An input of a confidential transaction names none of the fields of `TxInput`.
input_refused : (i : CtInput) → input_of_dict (ct_input_to_dict i) ≡ err type_error
unfolding input_of_dict keywords as_obj
input_refused i = refl

abbrev fields_of : Json → Fields
fields_of (Json.obj fs) = fs
fields_of j = Fields.end

abbrev held_fields : CtTransaction → Text → ℤ → Fields
held_fields tx txid fee =
    put "fee_satoshis" (Json.int fee) (put "txid" (Json.str txid) (fields_of (ct_to_dict tx)))

held_refused :
    (tx : CtTransaction) (i : CtInput) (others : List CtInput) (txid : Text) (fee : ℤ)
    → tx.inputs ≡ i ∷ others
    → tx_of_entry (held_fields tx txid fee) ≡ err type_error
unfolding tx_of_entry ct_to_dict put argument_or find? traverse_items items_of
held_refused tx i others txid fee ins = rw (ins, input_refused i) refl

module _ (codec : Codec) where
  open codec use {dumps, loads}

  entry_refused :
      (tx : CtTransaction) (i : CtInput) (others : List CtInput) (txid : Text) (fee : ℤ)
      (entry : Fields)
      → loads (dumps (ct_to_dict tx)) ≡ ok (ct_to_dict tx)
      → tx.inputs ≡ i ∷ others
      → pool_entry codec (txid, record { tx_json = dumps (ct_to_dict tx); fee_satoshis = fee })
        ≡ ok entry
      → tx_of_entry entry ≡ err type_error
  unfolding as_obj ct_to_dict put
  entry_refused tx i others txid fee entry reads ins held =
      let same : ok (held_fields tx txid fee) ≡ ok entry = rw reads at held in
      ap tx_of_entry (cc same) ∙ held_refused tx i others txid fee ins

  -- A confidential transaction with an input that is kept in the mempool, and read back as it was
  -- written, is skipped by the miner whatever its id and fee are there: it is never mined.
  pub readable_txs-skip :
      (tx : CtTransaction) (i : CtInput) (others : List CtInput) (txid : Text) (fee : ℤ)
      (entry : Fields) (rest : List Fields)
      → loads (dumps (ct_to_dict tx)) ≡ ok (ct_to_dict tx)
      → tx.inputs ≡ i ∷ others
      → pool_entry codec (txid, record { tx_json = dumps (ct_to_dict tx); fee_satoshis = fee })
        ≡ ok entry
      → readable_txs (entry ∷ rest) ≡ readable_txs rest
  unfolding readable_txs
  readable_txs-skip tx i others txid fee entry rest reads ins held =
      rw (readable_txs, entry_refused tx i others txid fee entry reads ins held) refl
