-- ===== src/Signature/Bounds.antt =====
-- The form of a signature (agent/modules/privacy_layer.py, lines 151 to 193): its ranges, and that
-- its text is read back.
use bitchchain.Base.{
  ◌&&◌, take_exact, drop_exact, ℕ, ◌/◌, ◌%◌, ◌^◌, ◌≤◌, ◌<◌, ◌≡◌, refl, ap, ◌∙◌, inl, inr, true,
  Option, none, some, [], ◌∷◌, ◌++◌, Text, Bytes, AreBytes, ltb, leb, ◌==◌, ==_iff, if◌then◌else◌,
  length, length-append, ok, ◌>>=◌, ◌>>◌, guard, >>=-eq-ok, hex, from_be, arith, Bool-cases,
  Option-cases, pos, assertion_error,
}
use mathlib.Core.Path.{subst}
use bitchchain.Base.BigEndian.{
  to_be_fits, be_bytes, from_be-be_bytes, length-be_bytes, be_bytes-AreBytes,
}
use bitchchain.Base.Strings.Numerals.{parse_hex, parse_hex-hex}
use bitchchain.Htlc.Script.{length-hex}
use bitchchain.Curve.{group_order, Point, generator, point_mul}
use bitchchain.Signature.{
  Pair, generate_k, nonce_x, low_s, sign_again, sign_data, ecdsa_sign, ecdsa_verify, signature_text,
  verify_data,
}

parsed : (bs : Bytes) → length bs ≡ 32 → AreBytes bs → parse_hex (hex bs) ≡ ok (from_be 0 bs)
parsed [] long valid = absurd (omega (arith, long))
parsed (b ∷ bs) long valid = parse_hex-hex b bs valid

module _ (hmac : Bytes → Bytes → Bytes) where
  low_s-le : (private_key k r z : ℕ) → low_s hmac private_key k r z ≤ group_order / 2
  unfolding low_s
  low_s-le private_key k r z = ground arith

  nonce_x-lt : (k r : ℕ) → nonce_x hmac k ≡ ok r → r < group_order
  unfolding nonce_x
  nonce_x-lt k r h = elim (Option-cases (point_mul (pos k) generator)) [
    | inl none_found ↦ absurd (cc (rw (none_found, nonce_x) at h))
    | inr ((x, y), found) ↦
        let same : x % group_order ≡ r = cc (rw (found, nonce_x) at h) in omega (arith, same)
  ]

  abbrev IsLow : Pair → Type 0
  IsLow pair = (pair.0 < group_order) × (pair.1 ≤ group_order / 2)

  signed-IsLow :
      (d k r : ℕ) (hash : Bytes) (pair : Pair)
      → nonce_x hmac k ≡ ok r
      → (r, low_s hmac d k r (from_be 0 hash)) ≡ pair
      → IsLow pair
  signed-IsLow d k r hash pair at same =
      subst IsLow same (nonce_x-lt k r at, low_s-le d k r (from_be 0 hash))

  again-IsLow :
      (d : ℕ) (hash : Bytes) (found : Option ℕ) (pair : Pair)
      → elim found [
        | none ↦ ok none
        | some k ↦ nonce_x hmac k >>= λ r. ok (some (r, low_s hmac d k r (from_be 0 hash)))
      ]
        ≡ ok (some pair)
      → IsLow pair
  again-IsLow d hash none pair h = absurd (cc h)
  again-IsLow d hash (some k) pair h =
      let (r, at, done) =
        >>=-eq-ok (nonce_x hmac k) (λ r. ok (some (r, low_s hmac d k r (from_be 0 hash)))) h in
      signed-IsLow d k r hash pair at (cc done)

  sign_again-IsLow :
      (rounds d : ℕ) (hash : Bytes) (pair : Pair)
      → sign_again hmac rounds d hash ≡ ok (some pair)
      → IsLow pair
  unfolding sign_again
  sign_again-IsLow rounds d hash pair h =
      let (found, searched, rest) =
        >>=-eq-ok (generate_k hmac rounds d hash (1 ∷ []))
          (λ found. elim found [
            | none ↦ ok none
            | some k ↦ nonce_x hmac k >>= λ r. ok (some (r, low_s hmac d k r (from_be 0 hash)))
          ])
          h in
      again-IsLow d hash found pair rest

  first-IsLow :
      (rounds d : ℕ) (hash : Bytes) (found : Option ℕ) (pair : Pair)
      → elim found [
        | none ↦ ok none
        | some k ↦ nonce_x hmac k >>= λ r.
            if r == 0
            then sign_again hmac rounds d hash
            else ok (some (r, low_s hmac d k r (from_be 0 hash)))
      ]
        ≡ ok (some pair)
      → IsLow pair
  first-IsLow rounds d hash none pair h = absurd (cc h)
  first-IsLow rounds d hash (some k) pair h =
      let (r, at, rest) =
        >>=-eq-ok (nonce_x hmac k)
          (λ r.
            if r == 0
            then sign_again hmac rounds d hash
            else ok (some (r, low_s hmac d k r (from_be 0 hash))))
          h in
      elim (Bool-cases (r == 0)) [
        | inl zero_r ↦ sign_again-IsLow rounds d hash pair (rw zero_r at rest)
        | inr good ↦ signed-IsLow d k r hash pair at (cc (rw good at rest))
      ]

  ecdsa_sign-IsLow :
      (rounds d : ℕ) (hash : Bytes) (pair : Pair)
      → ecdsa_sign hmac rounds d hash ≡ ok (some pair)
      → IsLow pair
  unfolding ecdsa_sign
  ecdsa_sign-IsLow rounds d hash pair h =
      let (found, searched, rest) =
        >>=-eq-ok
          (guard (leb 1 d && ltb d group_order) assertion_error >> generate_k hmac rounds d hash [])
          (λ found. elim found [
            | none ↦ ok none
            | some k ↦ nonce_x hmac k >>= λ r.
                if r == 0
                then sign_again hmac rounds d hash
                else ok (some (r, low_s hmac d k r (from_be 0 hash)))
          ])
          h in
      first-IsLow rounds d hash found pair rest

-- A number of 32 bytes is read back from its digits.
parse_hex-be_bytes : (n : ℕ) → n < 256 ^ 32 → parse_hex (hex (be_bytes 32 n)) ≡ ok n
parse_hex-be_bytes n h =
    parsed (be_bytes 32 n) (length-be_bytes 32 n) (be_bytes-AreBytes 32 n)
    ∙ ap ok (from_be-be_bytes 32 n h)

abbrev written : Pair → Text
written (r, s) = hex (be_bytes 32 r) ++ hex (be_bytes 32 s)

half_width : (n : ℕ) → length (hex (be_bytes 32 n)) ≡ 64
half_width n = omega (arith, length-hex (be_bytes 32 n), length-be_bytes 32 n)

signature_text-written :
    (r s : ℕ) → r < 256 ^ 32 → s < 256 ^ 32 → signature_text (r, s) ≡ ok (written (r, s))
unfolding signature_text
signature_text-written r s small small' = rw (to_be_fits 32 r small, to_be_fits 32 s small') refl

verify_data-written :
    (sha256 : Bytes → Bytes) (public_key : Point) (message : Bytes) (r s : ℕ)
    → r < 256 ^ 32
    → s < 256 ^ 32
    → verify_data sha256 public_key message (written (r, s))
      ≡ ok (ecdsa_verify public_key (sha256 message) (r, s))
unfolding verify_data
verify_data-written sha256 public_key message r s small small' =
    let first = hex (be_bytes 32 r) in
    let second = hex (be_bytes 32 s) in
    let wide : (length (first ++ second) == 128) ≡ true =
      (==_iff (length (first ++ second)) 128).1
        (omega (arith, length-append first second, half_width r, half_width s)) in
    rw
      (
        wide,
        take_exact 64 first second (half_width r),
        drop_exact 64 first second (half_width r),
        parse_hex-be_bytes r small,
        parse_hex-be_bytes s small',
      )
      refl

-- What `_ecdsa_sign` returns lies in the lower half of the group, and its text, of 128 characters, is
-- what `_ecdsa_sign_data` returns and what `_ecdsa_verify_data` reads back.
pub sign_data_read :
    (sha256 : Bytes → Bytes) (hmac : Bytes → Bytes → Bytes) (rounds d : ℕ) (message : Bytes)
    (pair : Pair) (public_key : Point)
    → ecdsa_sign hmac rounds d (sha256 message) ≡ ok (some pair)
    → (pair.0 < group_order)
      × (pair.1 ≤ group_order / 2)
      × (t : Text) × (sign_data sha256 hmac rounds d message ≡ ok (some t))
      × (length t ≡ 128)
      × (verify_data sha256 public_key message t
          ≡ ok (ecdsa_verify public_key (sha256 message) pair))
unfolding sign_data
sign_data_read sha256 hmac rounds d message (r, s) public_key h =
    let (r_low, s_low) = ecdsa_sign-IsLow hmac rounds d (sha256 message) (r, s) h in
    let small : r < 256 ^ 32 = omega (arith, r_low) in
    let small' : s < 256 ^ 32 = omega (arith, s_low) in
    (
      r_low,
      s_low,
      written (r, s),
      rw (h, signature_text-written r s small small') refl,
      omega (
        arith,
        length-append (hex (be_bytes 32 r)) (hex (be_bytes 32 s)),
        half_width r,
        half_width s,
      ),
      verify_data-written sha256 public_key message r s small small',
    )
