-- ===== src/Curve/Encoding.antt =====
-- Compressed points (`_hex_to_point`, `_point_to_bytes`, agent/modules/privacy_layer.py, lines 73
-- to 103).
use bitchchain.Base.{
  ℕ, zero, suc, ◌+◌, ◌-◌, ◌*◌, ◌/◌, ◌%◌, ◌^◌, ◌≤◌, ◌<◌, ◌≡◌, refl, sym, ap, ◌∙◌, inl, inr, true,
  ◌||◌, some, [], ◌∷◌, Bytes, AreBytes, ◌==◌, ==_iff, if◌then◌else◌, Bool-cases, length, ok,
  >>=-eq-ok, from_hex, hex, from_be, arith,
}
use bitchchain.Base.Strings.{from_hex-hex}
use bitchchain.Base.BigEndian.{to_be_fits, be_bytes, be_bytes-from_be}
use mathlib.Core.Path.{subst}
use native.Mathlib.Nat.{mod-add-mod, add-mul-mod_self_right, mod-lt}
use bitchchain.Curve.{
  field_prime, curve_b, y_squared, root_of, lift_x, decode_point, hex_to_point, point_to_bytes,
  is_on_curve, pow_mod, pow_loop,
}

-- A square does not see the sign.
square-neg : (z y : ℕ) → (z * z) % (z + y) ≡ (y * y) % (z + y)
square-neg z y =
    let balanced : z * z + y * (z + y) ≡ y * y + z * (z + y) = grind arith in
    sym (add-mul-mod_self_right (z * z) y (z + y))
    ∙ ap (λ t. t % (z + y)) balanced
    ∙ add-mul-mod_self_right (y * y) z (z + y)

neg_square :
    (y : ℕ)
    → y ≤ field_prime
    → ((field_prime - y) * (field_prime - y)) % field_prime ≡ (y * y) % field_prime
neg_square y h =
    let whole : field_prime - y + y ≡ field_prime = omega arith in
    ap (λ m. ((field_prime - y) * (field_prime - y)) % m) (sym whole)
    ∙ square-neg (field_prime - y) y
    ∙ ap (λ m. (y * y) % m) whole

pow_loop-lt : (fuel acc a e m : ℕ) → acc < m → pow_loop fuel acc a e m < m
unfolding pow_loop
pow_loop-lt zero acc a e m h = h
pow_loop-lt (suc fuel) acc a e m h = ground (
  arith,
  mod-lt (acc * a) {m = m},
  pow_loop-lt fuel (acc * a % m) (a * a % m) (e / 2) m,
  pow_loop-lt fuel acc (a * a % m) (e / 2) m,
)

root_of-lt : (y_sq : ℕ) → root_of y_sq < field_prime
unfolding pow_mod
root_of-lt y_sq =
    pow_loop-lt 256 (1 % field_prime) (y_sq % field_prime) ((field_prime + 1) / 4) field_prime
      (omega arith)

-- What a lifted coordinate satisfies: the curve's equation, and the parity of its prefix.
record IsLifted (prefix x : ℕ) (q : ℕ × ℕ) : Type 0 where
  same : q.0 ≡ x
  reduced : x < field_prime
  on_curve : (q.1 * q.1) % field_prime ≡ y_squared x
  parity : (if q.1 % 2 == 0 then 2 else 3) ≡ prefix

lift_x-IsLifted :
    (prefix x : ℕ) (q : ℕ × ℕ)
    → (prefix == 2 || prefix == 3) ≡ true
    → lift_x prefix x ≡ some q
    → IsLifted prefix x q
lift_x-IsLifted prefix x q known lifted =
    let y = root_of (y_squared x) in ground (arith, neg_square y, root_of-lt (y_squared x))

-- What is decoded comes from 33 bytes, the first of which is a prefix.
decoded :
    (raw : Bytes) (q : ℕ × ℕ)
    → decode_point raw ≡ some q
    → (prefix : ℕ) × (rest : Bytes) × (raw ≡ prefix ∷ rest)
      × (length rest ≡ 32)
      × IsLifted prefix (from_be 0 rest) q
unfolding decode_point
decoded [] q h = absurd (cc h)
decoded (prefix ∷ rest) q h = elim (Bool-cases (prefix == 2 || prefix == 3)) [
  | inl known ↦ elim (Bool-cases (length rest == 32)) [
    | inl long ↦ (
      prefix,
      rest,
      refl,
      ground arith,
      lift_x-IsLifted prefix (from_be 0 rest) q known (rw (long, known) at h),
    )
    | inr short ↦ absurd (cc (rw short at h))
  ]
  | inr unknown ↦ absurd (ground (arith, h))
]

IsLifted-on_curve : (prefix x : ℕ) (q : ℕ × ℕ) → IsLifted prefix x q → is_on_curve q ≡ true
unfolding is_on_curve
IsLifted-on_curve prefix x q l =
    let cube : y_squared x ≡ (q.0 * q.0 * q.0 + curve_b) % field_prime =
      mod-add-mod (x * x * x) field_prime curve_b
      ∙ ap (λ x. (x * x * x + curve_b) % field_prime) (sym l.same) in
    (==_iff ((q.1 * q.1) % field_prime) ((q.0 * q.0 * q.0 + curve_b) % field_prime)).1
      (l.on_curve ∙ cube)

IsLifted-encoded :
    (prefix : ℕ) (rest : Bytes) (q : ℕ × ℕ)
    → AreBytes rest
    → length rest ≡ 32
    → IsLifted prefix (from_be 0 rest) q
    → point_to_bytes (some q) ≡ ok (prefix ∷ rest)
unfolding point_to_bytes
IsLifted-encoded prefix rest q valid long l =
    let small : q.0 < 256 ^ 32 = omega (arith, l.same, l.reduced) in
    let read : be_bytes 32 q.0 ≡ rest =
      ap (be_bytes 32) l.same
      ∙ ap (λ k. be_bytes k (from_be 0 rest)) (sym long)
      ∙ be_bytes-from_be rest valid in
    rw (to_be_fits 32 q.0 small, read, l.parity) refl

-- `_hex_to_point` accepts only points of the curve, and each in one encoding: what it decodes from
-- the hexadecimal form of some bytes satisfies the curve's equation, and `_point_to_bytes` gives
-- these bytes back.
pub hex_to_point_canonical :
    (raw : Bytes) (q : ℕ × ℕ)
    → AreBytes raw
    → hex_to_point (hex raw) ≡ ok (some q)
    → (is_on_curve q ≡ true) × (point_to_bytes (some q) ≡ ok raw)
unfolding hex_to_point
hex_to_point_canonical raw q valid h =
    let (found, read, got) = >>=-eq-ok (from_hex (hex raw)) (λ raw. ok (decode_point raw)) h in
    let same : found ≡ raw = cc (read, from_hex-hex raw valid) in
    let (prefix, rest, whole, long, lifted) = decoded raw q (cc (got, same)) in
    (
      IsLifted-on_curve prefix (from_be 0 rest) q lifted,
      IsLifted-encoded prefix rest q (subst AreBytes whole valid).1 long lifted ∙ ap ok (sym whole),
    )
