-- ===== src/Confidential.antt =====
-- Pedersen commitments and range proofs (`PedersenCommitment`, `RangeProof`,
-- agent/modules/privacy_layer.py). The second generator H, which the module computes once by
-- `_hash_to_curve`, is a parameter `h`; the bytes of `os.urandom` are arguments.
pub mod Blindings
pub mod Forgery
use bitchchain.Base.{
  ℕ, zero, suc, ◌+◌, ◌-◌, ◌*◌, ◌/◌, ◌%◌, ◌^◌, Bool, true, false, not, ◌&&◌, Option, none, some,
  List, [], ◌∷◌, ◌++◌, map, Text, Bytes, ltb, leb, ◌==◌, if◌then◌else◌, length, ℤ, pos, negsuc,
  Result, ok, err, ◌>>=◌, ◌>>◌, guard, traverse, hex, from_be, value_error,
}
use bitchchain.Base.BigEndian.{to_be}
use bitchchain.Base.Strings.Numerals.{hex_text, parse_hex}
use bitchchain.Curve.{
  group_order, Point, generator, sub_mod, mod_inv, pow_mod, point_add, point_mul, point_neg,
  point_to_bytes, hex_to_point, point_beq,
}

pub record PedersenCommitment : Type 0 where
  pub blinding_factor : ℕ
  pub value_satoshis : ℤ
  pub commitment_hex : Text

pub record BitProof : Type 0 where
  pub commitment : Text
  pub bit_value : ℤ
  pub nonce_r : Text
  pub challenge : Text
  pub response : Text

pub record RangeProofData : Type 0 where
  pub value_commitment_hex : Text
  pub bit_commitments : List Text
  pub bit_proofs : List BitProof
  pub bit_blindings : List ℕ
  pub total_blinding : ℕ

abbrev pub range_proof_bits : ℕ
range_proof_bits = 64

-- `int.from_bytes(os.urandom(32), "big") % N`
abbrev pub drawn : Bytes → ℕ
drawn bytes = from_be 0 bytes % group_order

-- The same, with one in place of zero.
abbrev pub drawn_nonzero : Bytes → ℕ
drawn_nonzero bytes = if drawn bytes == 0 then 1 else drawn bytes

-- `sum(b * (1 << i) for i, b in …)` from a weight on.
unfoldable pub weighted_sum : ℕ → List ℕ → ℕ
weighted_sum weight [] = 0
weighted_sum weight (b ∷ bs) = b * weight + weighted_sum (2 * weight) bs

-- The last blinding factor is what the first 63 leave of the total.
unfoldable pub last_blinding : ℕ → List ℕ → ℕ
last_blinding total firsts =
    sub_mod total (weighted_sum 1 firsts % group_order) group_order
    * mod_inv (2 ^ (range_proof_bits - 1) % group_order) group_order
    % group_order

unfoldable pub blindings_of : ℕ → List ℕ → List ℕ
blindings_of total firsts = firsts ++ last_blinding total firsts ∷ []

abbrev point_hex : Point → Result Text
point_hex p = point_to_bytes p >>= λ bytes. ok (hex bytes)

-- `PedersenCommitment.create` with a given blinding factor; without one it is drawn.
module _ (h : Point) where
  unfoldable pub commitment_point : ℤ → ℕ → Point
  commitment_point value blinding_factor =
      point_add (point_mul (pos blinding_factor) generator) (point_mul value h)

  unfoldable pub create_commitment : ℤ → ℕ → Result PedersenCommitment
  create_commitment value blinding_factor = elim (commitment_point value blinding_factor) [
    | none ↦ err value_error
    | some c ↦ point_hex (some c) >>= λ text. ok (record {
      blinding_factor = blinding_factor;
      value_satoshis = value;
      commitment_hex = text;
    })
  ]

  -- `verify`
  unfoldable pub verify_commitment : PedersenCommitment → Result Bool
  verify_commitment c = hex_to_point c.commitment_hex >>= λ actual.
      let expected = commitment_point c.value_satoshis c.blinding_factor in
      ok (not (point_beq actual none) && not (point_beq expected none) && point_beq actual expected)

-- `(value >> i) & 1`
abbrev pub bit_of : ℕ → ℕ → ℕ
bit_of value i = value / 2 ^ i % 2

module _ (sha256 : Bytes → Bytes) (h : Point) where
  -- The Schnorr proof of one bit's commitment, with the drawn nonce.
  unfoldable pub prove_bit : ℕ → ℕ → ℕ → Text → ℕ → Result BitProof
  prove_bit i bit blinding commitment nonce =
      let k = if nonce == 0 then 1 else nonce in
      point_hex (point_mul (pos k) generator) >>= λ r_hex. to_be 4 i >>= λ index.
      let e = from_be 0 (sha256 (commitment ++ (r_hex ++ index))) % group_order in
      ok (record {
        commitment = commitment;
        bit_value = pos bit;
        nonce_r = r_hex;
        challenge = hex_text e;
        response = hex_text ((k + e * blinding) % group_order);
      })

  -- The first loop, from a bit on: a commitment to each bit.
  unfoldable pub commit_bits : ℕ → ℕ → List ℕ → Result (List Text)
  commit_bits value i [] = ok []
  commit_bits value i (b ∷ bs) = create_commitment h (pos (bit_of value i)) b >>= λ c.
      commit_bits value (suc i) bs >>= λ cs. ok (c.commitment_hex ∷ cs)

  -- The second loop: a proof of each commitment.
  unfoldable pub prove_bits : ℕ → ℕ → List ℕ → List Text → List ℕ → Result (List BitProof)
  prove_bits value i (b ∷ bs) (c ∷ cs) (k ∷ ks) = prove_bit i (bit_of value i) b c k >>= λ proof.
      prove_bits value (suc i) bs cs ks >>= λ rest. ok (proof ∷ rest)
  prove_bits value i _ _ _ = ok []

  -- `RangeProof.create`, with the 63 drawn blinding factors that are kept and the drawn nonces.
  unfoldable pub create_proof : ℤ → ℕ → List ℕ → List ℕ → Result RangeProofData
  create_proof (negsuc n) total_blinding firsts nonces = err value_error
  create_proof (pos value) total_blinding firsts nonces =
      let blindings = blindings_of total_blinding firsts in
      guard (ltb value (2 ^ range_proof_bits)) value_error
      >> commit_bits value 0 blindings
      >>= λ commitments. prove_bits value 0 blindings commitments nonces >>= λ proofs.
          create_commitment h (pos value) total_blinding >>= λ total. ok (record {
            value_commitment_hex = total.commitment_hex;
            bit_commitments = commitments;
            bit_proofs = proofs;
            bit_blindings = blindings;
            total_blinding = total_blinding;
          })

module _ (h : Point) where
  -- The equation of one bit's proof, s * G = R + e * (C - b * H).
  unfoldable pub equation_holds : Point → Point → ℕ → ℕ → ℤ → Bool
  equation_holds c r e s b =
      let bh = point_mul b h in
      let rest = if point_beq bh none then c else point_add c (point_neg bh) in
      point_beq (point_mul (pos s) generator) (point_add r (point_mul (pos e) rest))

  unfoldable pub bit_holds : BitProof → Result Bool
  bit_holds bp = hex_to_point bp.commitment >>= λ c. hex_to_point bp.nonce_r >>= λ r.
      if point_beq c none
      then ok false
      else if point_beq r none
      then ok false
      else (parse_hex bp.challenge >>= λ e.
          parse_hex bp.response >>= λ s. ok (equation_holds c r e s bp.bit_value))

  -- The first loop of `RangeProof.verify`.
  unfoldable pub bits_hold : List BitProof → Result Bool
  bits_hold [] = ok true
  bits_hold (bp ∷ bps) =
      let rest = bits_hold bps in bit_holds bp >>= λ good. if good then rest else ok false

  -- The second loop: `none` where a commitment is no point.
  unfoldable pub sum_bits : ℕ → Point → List BitProof → Result (Option Point)
  sum_bits weight total [] = ok (some total)
  sum_bits weight total (bp ∷ bps) = hex_to_point bp.commitment >>= λ c.
      let rest = sum_bits (2 * weight) (point_add total (point_mul (pos weight) c)) bps in
      if point_beq c none then ok none else rest

  -- The comparison behind the loops.
  abbrev pub compare_total : Option Point → Point → Bool
  compare_total none expected = false
  compare_total (some total) expected = not (point_beq expected none) && point_beq total expected

  -- `RangeProof.verify`
  unfoldable pub verify_proof : RangeProofData → Result Bool
  verify_proof proof = bits_hold proof.bit_proofs >>= λ good.
      let summed = sum_bits 1 none proof.bit_proofs >>= λ total.
      hex_to_point proof.value_commitment_hex >>= λ expected. ok (compare_total total expected) in
      if good then summed else ok false
