-- ===== src/Signature.antt =====
-- ECDSA over secp256k1 with the nonces of RFC 6979 (agent/modules/privacy_layer.py, lines 132 to
-- 200). SHA-256 and HMAC are parameters; the search for a nonce is on rounds, and `none` says that
-- they are used up.
pub mod Bounds
use bitchchain.Base.{
  ℕ, zero, suc, ◌+◌, ◌-◌, ◌*◌, ◌/◌, ◌%◌, ◌^◌, Bool, true, false, not, ◌&&◌, Option, none, some, [],
  ◌∷◌, ◌++◌, Text, Bytes, ltb, leb, ◌==◌, if◌then◌else◌, length, take, drop, replicate, pos, Result,
  ok, err, ◌>>=◌, ◌>>◌, guard, or_raise, hex, from_be, type_error, value_error, assertion_error,
  Option,
}
use bitchchain.Base.BigEndian.{to_be}
use bitchchain.Base.Strings.Numerals.{parse_hex}
use bitchchain.Curve.{group_order, Point, generator, mod_inv, point_add, point_mul}

-- A signature (r, s).
abbrev pub Pair : Type 0
Pair = ℕ × ℕ

module _ (hmac : Bytes → Bytes → Bytes) where
  -- The inner loop `while len(T) < 32`; every digest adds at least a byte.
  unfoldable pub gather : ℕ → Bytes → Bytes → Bytes → Bytes × Bytes
  gather zero k v t = (v, t)
  gather (suc rounds) k v t =
      let v' = hmac k v in
      let rest = gather rounds k v' (t ++ v') in if ltb (length t) 32 then rest else (v, t)

  -- The outer loop: candidates until one is a scalar.
  unfoldable pub nonce_loop : ℕ → Bytes → Bytes → Option ℕ
  unfolding gather
  nonce_loop zero k v = none
  nonce_loop (suc rounds) k v =
      let (v1, t) = gather 32 k v [] in
      let candidate = from_be 0 (take 32 t) in
      let k2 = hmac k (v1 ++ 0 ∷ []) in
      let rest = nonce_loop rounds k2 (hmac k2 v1) in
      if leb 1 candidate && ltb candidate group_order then some candidate else rest

  -- `_generate_rfc6979_k`
  unfoldable pub generate_k : ℕ → ℕ → Bytes → Bytes → Result (Option ℕ)
  unfolding nonce_loop
  generate_k rounds private_key message_hash extra_entropy = to_be 32 private_key >>= λ key.
      let v0 = replicate 32 1 in
      let tail = key ++ (message_hash ++ extra_entropy) in
      let k1 = hmac (replicate 32 0) (v0 ++ 0 ∷ tail) in
      let v1 = hmac k1 v0 in
      let k2 = hmac k1 (v1 ++ 1 ∷ tail) in ok (nonce_loop rounds k2 (hmac k2 v1))

  -- `kG[0] % N`; indexing `None` raises.
  unfoldable pub nonce_x : ℕ → Result ℕ
  nonce_x k = elim (point_mul (pos k) generator) [
    | none ↦ err type_error
    | some (x, y) ↦ ok (x % group_order)
  ]

  -- The second half of the signature, brought into the lower half of the group.
  unfoldable pub low_s : ℕ → ℕ → ℕ → ℕ → ℕ
  low_s private_key k r z =
      let s = mod_inv k group_order * (z + r * private_key) % group_order in
      if ltb (group_order / 2) s then group_order - s else s

  abbrev pub sign_with : ℕ → ℕ → Bytes → ℕ → Pair
  sign_with private_key r message_hash k = (r, low_s private_key k r (from_be 0 message_hash))

  -- The attempt with the second nonce.
  unfoldable pub sign_again : ℕ → ℕ → Bytes → Result (Option Pair)
  sign_again rounds private_key message_hash =
      generate_k rounds private_key message_hash (1 ∷ []) >>= λ found. elim found [
        | none ↦ ok none
        | some k ↦ nonce_x k >>= λ r. ok (some (sign_with private_key r message_hash k))
      ]

  -- `_ecdsa_sign`
  unfoldable pub ecdsa_sign : ℕ → ℕ → Bytes → Result (Option Pair)
  unfolding generate_k nonce_x low_s sign_again
  ecdsa_sign rounds private_key message_hash =
      guard (leb 1 private_key && ltb private_key group_order) assertion_error
      >> generate_k rounds private_key message_hash []
      >>= λ found. elim found [
        | none ↦ ok none
        | some k ↦ nonce_x k >>= λ r.
            if r == 0
            then sign_again rounds private_key message_hash
            else ok (some (sign_with private_key r message_hash k))
      ]

-- `r.to_bytes(32, "big").hex() + s.to_bytes(32, "big").hex()`
unfoldable pub signature_text : Pair → Result Text
signature_text (r, s) = to_be 32 r >>= λ rs. to_be 32 s >>= λ ss. ok (hex rs ++ hex ss)

-- `_ecdsa_verify`
unfoldable pub ecdsa_verify : Point → Bytes → Pair → Bool
ecdsa_verify public_key message_hash (r, s) =
    let s_inv = mod_inv s group_order in
    let u1 = from_be 0 message_hash * s_inv % group_order in
    let u2 = r * s_inv % group_order in
    let in_range = leb 1 r && ltb r group_order && (leb 1 s && ltb s group_order) in
    in_range && elim (point_add (point_mul (pos u1) generator) (point_mul (pos u2) public_key)) [
      | none ↦ false
      | some (x, y) ↦ x % group_order == r
    ]

module _ (sha256 : Bytes → Bytes) where
  -- `_ecdsa_sign_data`
  unfoldable pub sign_data : (Bytes → Bytes → Bytes) → ℕ → ℕ → Bytes → Result (Option Text)
  sign_data hmac rounds private_key message =
      ecdsa_sign hmac rounds private_key (sha256 message) >>= λ signed. elim signed [
        | none ↦ ok none
        | some pair ↦ signature_text pair >>= λ t. ok (some t)
      ]

  -- `_ecdsa_verify_data`
  unfoldable pub verify_data : Point → Bytes → Text → Result Bool
  verify_data public_key message sig_hex =
      if not (length sig_hex == 128)
      then ok false
      else (parse_hex (take 64 sig_hex) >>= λ r.
          parse_hex (drop 64 sig_hex) >>= λ s. ok (ecdsa_verify public_key (sha256 message) (r, s)))

-- `_private_key_to_public_key`
unfoldable pub public_key_of : ℕ → Result (ℕ × ℕ)
public_key_of private_key = or_raise (point_mul (pos private_key) generator) value_error
