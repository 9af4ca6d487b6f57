-- ===== src/Tests/Privacy.antt =====
-- Points, signatures, proofs and addresses at concrete values.
use bitchchain.Base.{
  ℕ, ◌≤◌, ◌≡◌, ◌≢◌, ◌⊎◌, refl, true, none, some, [], ◌∷◌, Bytes, AreBytes, replicate, length, ◌%◌,
  pos, ok, err, value_error, arith,
}
use bitchchain.Curve.{
  Point, generator, double_and_add, point_mul, point_add, point_neg, point_beq, hex_to_point,
}
use bitchchain.Confidential.{verify_proof}
use bitchchain.Confidential.Forgery.{
  generator_hex, forged_proof, verify_proof_forged, generator_decoded,
}
use bitchchain.Transfers.Decoding.{bsgs_decode}
use bitchchain.Transfers.Amounts.{bsgs_decode_sound}
use bitchchain.Tx.{sha256d}
use bitchchain.Wallet.{double_checksum, base58check_encode, address_to_hash160}
use bitchchain.Wallet.Addresses.{address_to_hash160-encode, address_to_hash160_zero_prefix}

abbrev generator_pair : ℕ × ℕ
generator_pair = elim generator [ none ↦ (0, 0) | some p ↦ p ]

verify_proof_forged_example : verify_proof generator (forged_proof generator_hex (pos 7)) ≡ ok true
verify_proof_forged_example =
    verify_proof_forged generator generator_hex generator_pair (pos 7) generator_decoded

zero_decoded : bsgs_decode generator 100 4 generator_hex 1 ≡ ok (some 0)
unfolding bsgs_decode point_mul double_and_add point_add point_neg point_beq
zero_decoded = rw generator_decoded refl

bsgs_decode_sound_example :
    let blinded = point_mul (pos 1) generator in
    (c : Point) × (hex_to_point generator_hex ≡ ok c)
    × (((point_beq (point_add c (point_neg blinded)) none ≡ true) × (◌≡◌ {A = ℕ} 0 0))
        ⊎ ((0 ≤ 100) × (point_beq (point_add blinded (point_mul (pos 0) generator)) c ≡ true)))
bsgs_decode_sound_example = bsgs_decode_sound generator 100 4 1 0 generator_hex zero_decoded

-- A digest that keeps the first byte.
abbrev first_of : Bytes → ℕ
first_of [] = 0
first_of (b ∷ bs) = b % 256

abbrev head_sha : Bytes → Bytes
head_sha bytes = first_of bytes ∷ replicate 31 0

head_sha_width : (bytes : Bytes) → (length (head_sha bytes) ≡ 32) × AreBytes (head_sha bytes)
head_sha_width [] = (refl, omega arith)
head_sha_width (b ∷ bs) = (refl, omega arith)

address_to_hash160-encode_example :
    address_to_hash160 head_sha (base58check_encode head_sha (0x6f ∷ replicate 20 1))
    ≡ ok (replicate 20 1)
address_to_hash160-encode_example =
    address_to_hash160-encode head_sha head_sha_width 0x6f (replicate 20 1) (omega arith) refl
      (omega arith)

checksums_differ :
    double_checksum head_sha (0 ∷ 1 ∷ replicate 19 1)
    ≢ double_checksum head_sha (1 ∷ replicate 19 1)
unfolding sha256d
checksums_differ same = absurd (cc same)

address_to_hash160_zero_prefix_example :
    address_to_hash160 head_sha (base58check_encode head_sha (0 ∷ 1 ∷ replicate 19 1))
    ≡ err value_error
address_to_hash160_zero_prefix_example =
    address_to_hash160_zero_prefix head_sha head_sha_width 1 (replicate 19 1) (omega arith) refl
      (omega arith) checksums_differ
