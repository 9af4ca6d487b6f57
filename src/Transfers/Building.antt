-- ===== src/Transfers/Building.antt =====
-- The making of confidential transactions (`build_ct_output`, `build_ct_transaction` and the bridge,
-- agent/modules/privacy_layer.py, lines 394 to 432 and 478 to 489). `canonical` is
-- `json.dumps(…, sort_keys=True).encode()`.
use bitchchain.Base.{
  ℕ, zero, suc, ◌+◌, ◌*◌, ◌%◌, Option, none, some, List, [], ◌∷◌, ◌++◌, map, Text, Bytes, text,
  ◌==◌, if◌then◌else◌, replicate, ℤ, pos, ◌-ℤ◌, Result, ok, ◌>>=◌, hex, from_be,
}
use bitchchain.Base.Strings.Numerals.{hex_text}
use bitchchain.Json.{Json, Fields}
use bitchchain.Tx.{sha256d}
use bitchchain.Curve.{group_order, Point, generator, sub_mod, point_mul, point_to_bytes}
use bitchchain.Signature.{ecdsa_sign, signature_text}
use bitchchain.Confidential.{create_commitment, create_proof}
use bitchchain.Transfers.{
  ct_input_to_dict, items_of, embedded, CtOutput, CtInput, CtTransaction, commitments_of,
}

-- The random numbers that one output draws.
pub record Draws : Type 0 where
  pub blinding : ℕ
  pub firsts : List ℕ
  pub nonces : List ℕ

module _ (sha256 : Bytes → Bytes) (hmac : Bytes → Bytes → Bytes) (canonical : Json → Bytes)
    (h : Point) where
  -- `build_ct_output`
  unfoldable pub build_ct_output : ℤ → Text → Draws → Result (CtOutput × ℕ)
  build_ct_output value script draws =
      let blinding = if draws.blinding == 0 then 1 else draws.blinding in
      create_commitment h value blinding >>= λ c.
      create_proof sha256 h value c.blinding_factor draws.firsts draws.nonces >>= λ proof. ok (
        record {
          commitment_hex = c.commitment_hex;
          range_proof = embedded proof;
          script_pubkey = script;
        },
        c.blinding_factor,
      )

  unfoldable pub build_outputs : List (ℤ × Text × Draws) → Result (List CtOutput × List ℕ)
  build_outputs [] = ok ([], [])
  build_outputs ((value, script, draws) ∷ specs) = build_ct_output value script draws >>= λ first.
      build_outputs specs >>= λ rest. ok (first.0 ∷ rest.0, first.1 ∷ rest.1)

  sum_of : List ℕ → ℕ
  sum_of [] = 0
  sum_of (b ∷ bs) = b + sum_of bs

  concat_texts : List Text → Text
  concat_texts [] = []
  concat_texts (t ∷ ts) = t ++ concat_texts ts

  -- The signature of the excess: with the sender's key, or a Schnorr proof of the excess.
  abbrev schnorr_text : ℕ → ℕ → Bytes → Result Text
  schnorr_text excess nonce msg_hash =
      let k = if nonce == 0 then 1 else nonce in
      point_to_bytes (point_mul (pos k) generator) >>= λ r.
      point_to_bytes (point_mul (pos excess) generator) >>= λ e_point.
      let e = from_be 0 (sha256 (r ++ (e_point ++ msg_hash))) % group_order in
      ok (hex r ++ (hex_text e ++ hex_text ((k + e * excess) % group_order)))

  unfoldable pub excess_signature : ℕ → ℕ → ℕ → ℕ → Bytes → Result (Option Text)
  excess_signature rounds zero excess nonce msg_hash =
      if excess == 0
      then ok (some (hex (replicate 33 0)))
      else (schnorr_text excess nonce msg_hash >>= λ t. ok (some t))
  excess_signature rounds (suc d) excess nonce msg_hash =
      ecdsa_sign hmac rounds (suc d) msg_hash >>= λ signed. elim signed [
        | none ↦ ok none
        | some pair ↦ signature_text pair >>= λ t. ok (some t)
      ]

  abbrev commitment_field : CtOutput → Json
  commitment_field o =
      Json.obj (Fields.field "commitment_hex" (Json.str o.commitment_hex) Fields.end)

  -- `_compute_ct_txid`
  unfoldable pub compute_ct_txid : CtTransaction → Text
  unfolding items_of
  compute_ct_txid tx = hex (
      sha256d sha256 (
        canonical (
          Json.obj (
            Fields.field "version" (Json.int (pos tx.version)) (
              Fields.field "inputs" (Json.arr (items_of (map ct_input_to_dict tx.inputs))) (
                Fields.field "outputs" (Json.arr (items_of (map commitment_field tx.outputs)))
                  (Fields.field "fee_satoshis" (Json.int tx.fee_satoshis) Fields.end)))))))

  abbrev input_of : Text × ℕ × ℕ → CtInput
  input_of (txid, vout, blinding) = record {
    txid = txid;
    vout = vout;
    blinding_hex = hex_text blinding;
  }

  abbrev blinding_of : Text × ℕ × ℕ → ℕ
  blinding_of (txid, vout, blinding) = blinding

  -- `build_ct_transaction`, with the rounds for the signature's nonce and the drawn nonce of the
  -- excess; `none` where the rounds are used up.
  unfoldable pub build_ct_transaction :
      ℕ
      → Text
      → List (Text × ℕ × ℕ)
      → List (ℤ × Text × Draws)
      → ℤ
      → ℕ
      → ℕ
      → Result (Option (CtTransaction × List ℕ))
  unfolding sum_of concat_texts
  build_ct_transaction rounds sender_address input_refs outputs_spec fee_satoshis sender_private_key
        nonce =
      build_outputs outputs_spec >>= λ built. create_commitment h fee_satoshis 0 >>= λ fee.
      let ins = sum_of (map blinding_of input_refs) % group_order in
      let outs = sum_of built.1 % group_order in
      let commitments = concat_texts (commitments_of built.0) ++ fee.commitment_hex in
      excess_signature rounds sender_private_key (sub_mod ins outs group_order) nonce
        (sha256 commitments)
      >>= λ signed. elim signed [
        | none ↦ ok none
        | some excess_sig ↦
            let tx : CtTransaction = record {
              version = 2;
              sender_address = sender_address;
              inputs = map input_of input_refs;
              outputs = built.0;
              fee_satoshis = fee_satoshis;
              fee_commitment_hex = fee.commitment_hex;
              excess_sig = excess_sig;
              txid = [];
            } in
            ok (some (record tx { txid = compute_ct_txid tx }, built.1))
      ]

  -- `create_transparent_to_ct_bridge`, up to the choice of the one blinding factor it returns.
  unfoldable pub create_bridge :
      ℕ → Text → ℕ → ℤ → Text → ℤ → Draws → ℕ → Result (Option (CtTransaction × List ℕ))
  create_bridge rounds txid vout plaintext_value recipient_script fee_satoshis draws nonce =
      build_ct_transaction rounds (text "bridge") ((txid, vout, 0) ∷ [])
        ((plaintext_value -ℤ fee_satoshis, recipient_script, draws) ∷ []) fee_satoshis 0 nonce
