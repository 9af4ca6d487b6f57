-- ===== src/Confidential/Forgery.antt =====
-- Proofs that `RangeProof.verify` takes (agent/modules/privacy_layer.py, lines 284 to 310): the
-- challenge is read from the proof, and nothing says that a bit's value is zero or one.
use bitchchain.Base.{
  ℕ, ◌≡◌, refl, ap, ◌∙◌, true, none, some, [], ◌∷◌, Text, text, ℤ, pos, ok, ==_iff, from_hex,
  int_hex, from_be, if◌then◌else◌,
}
use bitchchain.Base.Strings.Numerals.{parse_hex}
use bitchchain.Curve.{
  Point, generator, point_add, point_mul, point_neg, point_beq, hex_to_point, decode_point,
  double_and_add, pow_mod, pow_loop,
}
use bitchchain.Confidential.{
  BitProof, RangeProofData, equation_holds, bit_holds, bits_hold, sum_bits, verify_proof,
}

abbrev pub generator_hex : Text
generator_hex = text "0279be667ef9dcbbac55a06295ce870b07029bfcdb2dce28d959f2815b16f81798"

-- The challenge is zero, the response one, and the nonce's point the generator.
abbrev pub forged_bit : Text → ℤ → BitProof
forged_bit commitment b = record {
  commitment = commitment;
  bit_value = b;
  nonce_r = generator_hex;
  challenge = text "0x0";
  response = text "0x1";
}

abbrev pub forged_proof : Text → ℤ → RangeProofData
forged_proof commitment b = record {
  value_commitment_hex = commitment;
  bit_commitments = commitment ∷ [];
  bit_proofs = forged_bit commitment b ∷ [];
  bit_blindings = [];
  total_blinding = 0;
}

pub generator_decoded : hex_to_point generator_hex ≡ ok generator
unfolding hex_to_point decode_point from_hex pow_mod pow_loop from_be
generator_decoded = refl

point_beq_refl : (p : Point) → point_beq p p ≡ true
unfolding point_beq
point_beq_refl none = refl
point_beq_refl (some (x, y)) = rw ((==_iff x x).1 refl, (==_iff y y).1 refl) refl

none_add : (p : Point) → point_add none p ≡ p
unfolding point_add
none_add p = refl

point_add-none : (p : ℕ × ℕ) → point_add (some p) none ≡ some p
unfolding point_add
point_add-none p = refl

point_mul_zero : (p : Point) → point_mul (pos 0) p ≡ none
unfolding point_mul double_and_add
point_mul_zero none = refl
point_mul_zero (some p) = refl

point_mul_one : (p : ℕ × ℕ) → point_mul (pos 1) (some p) ≡ some p
unfolding point_mul double_and_add point_add
point_mul_one p = refl

forged_equation : (h c : Point) (b : ℤ) → equation_holds h c generator 0 1 b ≡ true
unfolding equation_holds
forged_equation h c b =
    let bh = point_mul b h in
    let rest = if point_beq bh none then c else point_add c (point_neg bh) in
    ap (λ q. point_beq (point_mul (pos 1) generator) (point_add generator q)) (point_mul_zero rest)
    ∙ ap (λ q. point_beq q (point_add generator none)) (point_mul_one _)
    ∙ ap (λ q. point_beq generator q) (point_add-none _)
    ∙ point_beq_refl generator

zero_read : parse_hex (text "0x0") ≡ ok 0
unfolding parse_hex int_hex
zero_read = refl

one_read : parse_hex (text "0x1") ≡ ok 1
unfolding parse_hex int_hex
one_read = refl

module _ (h : Point) (commitment : Text) (c : ℕ × ℕ) (b : ℤ)
    (read : hex_to_point commitment ≡ ok (some c)) where
  forged_bit_holds : bit_holds h (forged_bit commitment b) ≡ ok true
  unfolding bit_holds point_beq
  forged_bit_holds =
      rw (read, generator_decoded, zero_read, one_read) (ap ok (forged_equation h (some c) b))

  forged_sum : sum_bits h 1 none (forged_bit commitment b ∷ []) ≡ ok (some (some c))
  unfolding sum_bits point_beq
  forged_sum =
      rw read (ap (λ q. ok (some q)) (ap (point_add none) (point_mul_one c) ∙ none_add (some c)))

  -- `RangeProof.verify` proves nothing of a value: for every commitment that decodes to a point, and
  -- every integer in place of a bit, it accepts a proof that was made without the value or the
  -- blinding factor.
  pub verify_proof_forged : verify_proof h (forged_proof commitment b) ≡ ok true
  unfolding verify_proof bits_hold point_beq
  verify_proof_forged = rw (forged_bit_holds, forged_sum, read) (ap ok (point_beq_refl (some c)))
