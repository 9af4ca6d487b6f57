-- ===== src/Transfers.antt =====
-- Confidential transactions and their verification (`CTTransaction`, `verify_balance` and
-- `verify_range_proofs`, agent/modules/privacy_layer.py, lines 368 to 391 and 434 to 473).
pub mod Decoding
pub mod Building
pub mod Amounts
pub mod Balance
use bitchchain.Base.{
  ℕ, zero, suc, ◌+◌, ◌-◌, ◌*◌, ◌/◌, ◌%◌, ◌^◌, Bool, true, false, not, ◌&&◌, Option, none, some,
  List, [], ◌∷◌, ◌++◌, map, Text, Bytes, text, text_beq, ltb, leb, ◌==◌, if◌then◌else◌, take,
  replicate, length, ℤ, pos, ◌-ℤ◌, Result, ok, err, ◌>>=◌, hex, from_be,
}
use bitchchain.Base.Strings.Numerals.{hex_text}
use bitchchain.Json.{Json, Items, Fields}
use bitchchain.Tx.{sha256d}
use bitchchain.Curve.{
  group_order, Point, generator, sub_mod, point_add, point_mul, point_neg, point_to_bytes,
  hex_to_point, point_beq,
}
use bitchchain.Signature.{ecdsa_sign, signature_text}
use bitchchain.Confidential.{RangeProofData, create_commitment, create_proof, verify_proof}

-- What stands under "range_proof" in an output: nothing, a text or a proof.
pub data ProofField : Type 0 where
  missing : ProofField
  told : Text → ProofField
  embedded : RangeProofData → ProofField

pub record CtOutput : Type 0 where
  pub commitment_hex : Text
  pub range_proof : ProofField
  pub script_pubkey : Text

pub record CtInput : Type 0 where
  pub txid : Text
  pub vout : ℕ
  pub blinding_hex : Text

pub record CtTransaction : Type 0 where
  pub version : ℕ
  pub sender_address : Text
  pub inputs : List CtInput
  pub outputs : List CtOutput
  pub fee_satoshis : ℤ
  pub fee_commitment_hex : Text
  pub excess_sig : Text
  pub txid : Text

abbrev pub ct_input_to_dict : CtInput → Json
ct_input_to_dict i = Json.obj (
    Fields.field "txid" (Json.str i.txid) (
      Fields.field "vout" (Json.int (pos i.vout))
        (Fields.field "blinding_hex" (Json.str i.blinding_hex) Fields.end)))

abbrev proof_json : ProofField → Json
proof_json missing = Json.null
proof_json (told t) = Json.str t
proof_json (embedded p) = Json.str (text "embedded")

abbrev ct_output_to_dict : CtOutput → Json
ct_output_to_dict o = Json.obj (
    Fields.field "commitment_hex" (Json.str o.commitment_hex) (
      Fields.field "range_proof" (proof_json o.range_proof) (
        Fields.field "script_pubkey" (Json.str o.script_pubkey)
          (Fields.field "value_satoshis" (Json.int (pos 0)) Fields.end))))

unfoldable pub items_of : List Json → Items
items_of [] = Items.nil
items_of (j ∷ js) = Items.cons j (items_of js)

-- `CTTransaction.to_dict`
unfoldable pub ct_to_dict : CtTransaction → Json
unfolding items_of
ct_to_dict tx = Json.obj (
    Fields.field "version" (Json.int (pos tx.version)) (
      Fields.field "sender_address" (Json.str tx.sender_address) (
        Fields.field "inputs" (Json.arr (items_of (map ct_input_to_dict tx.inputs))) (
          Fields.field "outputs" (Json.arr (items_of (map ct_output_to_dict tx.outputs))) (
            Fields.field "fee_satoshis" (Json.int tx.fee_satoshis) (
              Fields.field "fee_commitment_hex" (Json.str tx.fee_commitment_hex) (
                Fields.field "excess_sig" (Json.str tx.excess_sig)
                  (Fields.field "txid" (Json.str tx.txid) Fields.end))))))))

-- The answers of `verify_balance` and of `verify_range_proofs`.
pub data BalanceVerdict : Type 0 where
  invalid_input invalid_output zero_excess nonzero_excess unbalanced : BalanceVerdict

abbrev pub accepts : BalanceVerdict → Bool
accepts zero_excess = true
accepts nonzero_excess = true
accepts _ = false

pub data ProofVerdict : Type 0 where
  all_ok missing_proof commitment_mismatch proof_failed invalid_format : ProofVerdict

-- The sum of commitments; `none` where one of them is no point.
unfoldable pub sum_points : Point → List Text → Result (Option Point)
sum_points total [] = ok (some total)
sum_points total (c ∷ cs) = hex_to_point c >>= λ p.
    let rest = sum_points (point_add total p) cs in if point_beq p none then ok none else rest

-- The comparison of the two sums.
unfoldable pub settle : Point → Point → BalanceVerdict
settle input_sum output_sum =
    let excess = point_add input_sum (point_neg output_sum) in
    let both = not (point_beq input_sum none) && not (point_beq output_sum none) in
    if point_beq input_sum output_sum
    then zero_excess
    else if both && not (point_beq excess none)
    then nonzero_excess
    else unbalanced

abbrev pub commitments_of : List CtOutput → List Text
commitments_of [] = []
commitments_of (o ∷ os) = o.commitment_hex ∷ commitments_of os

-- The sum of the outputs with the fee, if that is a point.
abbrev pub add_fee : Point → Point → Point
add_fee output_sum fee = if point_beq fee none then output_sum else point_add output_sum fee

-- `verify_balance` behind the sum of the inputs.
unfoldable pub balance_outputs : CtTransaction → Option Point → Result BalanceVerdict
balance_outputs tx none = ok invalid_input
balance_outputs tx (some input_sum) = sum_points none (commitments_of tx.outputs) >>= λ outs.
    elim outs [
      | none ↦ ok invalid_output
      | some output_sum ↦ hex_to_point tx.fee_commitment_hex >>= λ fee.
          ok (settle input_sum (add_fee output_sum fee))
    ]

unfoldable pub verify_balance : CtTransaction → List Text → Result BalanceVerdict
verify_balance tx input_commitments =
    sum_points none input_commitments >>= λ ins. balance_outputs tx ins

-- `proof.startswith("STUB_RANGE_PROOF_v0:")`
abbrev pub is_stub : Text → Bool
is_stub t = text_beq (take 20 t) (text "STUB_RANGE_PROOF_v0:")

module _ (h : Point) where
  unfoldable pub check_output : CtOutput → Result ProofVerdict
  check_output o = elim o.range_proof [
    | missing ↦ ok missing_proof
    | told t ↦ ok (if is_stub t then all_ok else invalid_format)
    | embedded proof ↦
        if not (text_beq o.commitment_hex proof.value_commitment_hex)
        then ok commitment_mismatch
        else (verify_proof h proof >>= λ good. ok (if good then all_ok else proof_failed))
  ]

  abbrev go_on : ProofVerdict → Result ProofVerdict → Result ProofVerdict
  go_on all_ok rest = rest
  go_on verdict rest = ok verdict

  -- The loop of `verify_range_proofs`
  unfoldable pub check_outputs : List CtOutput → Result ProofVerdict
  check_outputs [] = ok all_ok
  check_outputs (o ∷ os) =
      let rest = check_outputs os in check_output o >>= λ verdict. go_on verdict rest

  unfoldable pub verify_range_proofs : CtTransaction → Result ProofVerdict
  unfolding check_outputs
  verify_range_proofs tx = check_outputs tx.outputs
