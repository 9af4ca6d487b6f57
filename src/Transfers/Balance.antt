-- ===== src/Transfers/Balance.antt =====
-- What `verify_range_proofs` takes (agent/modules/privacy_layer.py, lines 458 to 473).
use bitchchain.Base.{ℕ, ◌≡◌, refl, ap, ◌∙◌, some, List, [], ◌∷◌, Text, text_beq_iff, ℤ, ok, map}
use bitchchain.Curve.{Point, hex_to_point}
use bitchchain.Confidential.Forgery.{forged_proof, verify_proof_forged}
use bitchchain.Transfers.{
  CtOutput, CtTransaction, embedded, all_ok, check_output, check_outputs, verify_range_proofs,
}

-- Outputs for given commitments and any integers in place of their amounts.
abbrev pub forged_output : Text × ℤ → CtOutput
forged_output (commitment, b) = record {
  commitment_hex = commitment;
  range_proof = embedded (forged_proof commitment b);
  script_pubkey = [];
}

pub AllPoints : List (Text × ℤ) → Type 0
AllPoints [] = Unit
AllPoints ((commitment, b) ∷ outs) =
    (c : ℕ × ℕ) × (hex_to_point commitment ≡ ok (some c)) × AllPoints outs

check_outputs_forged :
    (h : Point) (outs : List (Text × ℤ))
    → AllPoints outs
    → check_outputs h (map forged_output outs) ≡ ok all_ok
unfolding check_outputs check_output AllPoints
check_outputs_forged h [] points = refl
check_outputs_forged h ((commitment, b) ∷ outs) (c, read, points) =
    rw ((text_beq_iff commitment commitment).1 refl, verify_proof_forged h commitment c b read)
      (check_outputs_forged h outs points)

-- `verify_range_proofs` accepts outputs whose proofs are made up, for any commitments that decode
-- to points.
pub verify_range_proofs_forged :
    (h : Point) (tx : CtTransaction) (outs : List (Text × ℤ))
    → tx.outputs ≡ map forged_output outs
    → AllPoints outs
    → verify_range_proofs h tx ≡ ok all_ok
unfolding verify_range_proofs
verify_range_proofs_forged h tx outs made points =
    ap (check_outputs h) made ∙ check_outputs_forged h outs points
