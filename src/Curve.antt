-- ===== src/Curve.antt =====
-- The curve secp256k1 (agent/modules/privacy_layer.py, lines 19 to 129): modular powers, addition
-- and multiples of points, and the compressed form of a point. A Python integer that is only used
-- modulo P stands here as its natural remainder.
pub mod Multiples
pub mod Encoding
use bitchchain.Base.{
  ℕ, zero, suc, ◌+◌, ◌-◌, ◌*◌, ◌/◌, ◌%◌, ◌^◌, Bool, true, false, not, ◌&&◌, ◌||◌, Option, none,
  some, List, [], ◌∷◌, ◌++◌, Text, Bytes, ltb, leb, ◌==◌, if◌then◌else◌, length, replicate, ℤ, pos,
  negsuc, Result, ok, err, ◌>>=◌, hex, from_hex, from_be, runtime_error, drop,
}
use bitchchain.Base.BigEndian.{to_be}

abbrev pub field_prime : ℕ
field_prime = 0xFFFFFFFFFFFFFFFFFFFFFFFFFFFFFFFFFFFFFFFFFFFFFFFFFFFFFFFEFFFFFC2F

abbrev pub group_order : ℕ
group_order = 0xFFFFFFFFFFFFFFFFFFFFFFFFFFFFFFFEBAAEDCE6AF48A03BBFD25E8CD0364141

-- The coefficient B; the coefficient A is zero.
abbrev pub curve_b : ℕ
curve_b = 7

-- A pair of coordinates, or `None` for the point at infinity.
abbrev pub Point : Type 0
Point = Option (ℕ × ℕ)

abbrev pub generator : Point
generator = some (
  0x79BE667EF9DCBBAC55A06295CE870B07029BFCDB2DCE28D959F2815B16F81798,
  0x483ADA7726A3C4655DA4FBFC0E1108A8FD17B448A68554199C47D08FFB10D4B8,
)

-- (a - b) % m
abbrev pub sub_mod : ℕ → ℕ → ℕ → ℕ
sub_mod a b m = (a + (m - b % m)) % m

-- Python's `pow(a, e, m)`, on fuel; `acc` is the product of the powers taken so far.
unfoldable pub pow_loop : ℕ → ℕ → ℕ → ℕ → ℕ → ℕ
pow_loop zero acc a e m = acc
pow_loop (suc fuel) acc a e m =
    let rest = pow_loop fuel (if e % 2 == 1 then acc * a % m else acc) (a * a % m) (e / 2) m in
    if e == 0 then acc else rest

-- The exponents are below 2 ^ 256.
unfoldable pub pow_mod : ℕ → ℕ → ℕ → ℕ
unfolding pow_loop
pow_mod a e m = pow_loop 256 (1 % m) (a % m) e m

unfoldable pub mod_inv : ℕ → ℕ → ℕ
mod_inv a m = pow_mod a (m - 2) m

-- The point with slope m through two points.
abbrev pub chord : ℕ → ℕ → ℕ → ℕ → ℕ × ℕ
chord m x1 y1 x2 =
    let x3 = sub_mod (sub_mod (m * m) x1 field_prime) x2 field_prime in
    (x3, sub_mod (m * sub_mod x1 x3 field_prime) y1 field_prime)

unfoldable pub point_add : Point → Point → Point
unfolding mod_inv
point_add none q = q
point_add (some p) none = some p
point_add (some (x1, y1)) (some (x2, y2)) =
    if x1 == x2
    then if not (y1 == y2)
      then none
      else if y1 == 0
      then none
      else some (chord (3 * x1 * x1 * mod_inv (2 * y1) field_prime % field_prime) x1 y1 x2)
    else some (
        chord
          (sub_mod y2 y1 field_prime
            * mod_inv (sub_mod x2 x1 field_prime) field_prime
            % field_prime)
          x1 y1 x2)

-- The loop of `_point_mul`, over any addition.
unfoldable pub double_and_add {ℓ} : {A : Type ℓ} → (A → A → A) → ℕ → ℕ → A → A → A
double_and_add add zero scalar result addend = result
double_and_add add (suc fuel) scalar result addend =
    let rest =
      double_and_add add fuel (scalar / 2) (if scalar % 2 == 1 then add result addend else result)
        (add addend addend) in
    if scalar == 0 then result else rest

-- `scalar % N`, for any integer.
abbrev pub scalar_mod : ℤ → ℕ
scalar_mod (pos n) = n % group_order
scalar_mod (negsuc n) = group_order - 1 - n % group_order

-- A scalar below N has at most 256 binary digits.
unfoldable pub point_mul : ℤ → Point → Point
unfolding double_and_add
point_mul scalar none = none
point_mul scalar (some p) = double_and_add point_add 256 (scalar_mod scalar) none (some p)

unfoldable pub point_neg : Point → Point
point_neg none = none
point_neg (some (x, y)) = some (x, sub_mod 0 y field_prime)

unfoldable pub point_to_bytes : Point → Result Bytes
point_to_bytes none = ok (replicate 33 0)
point_to_bytes (some (x, y)) = to_be 32 x >>= λ bytes. ok ((if y % 2 == 0 then 2 else 3) ∷ bytes)

unfoldable pub is_on_curve : ℕ × ℕ → Bool
is_on_curve (x, y) = (y * y) % field_prime == (x * x * x + curve_b) % field_prime

-- The right-hand side of the curve's equation, and the candidate for its root.
abbrev pub y_squared : ℕ → ℕ
y_squared x = (x * x * x % field_prime + curve_b) % field_prime

abbrev pub root_of : ℕ → ℕ
root_of y_sq = pow_mod y_sq ((field_prime + 1) / 4) field_prime

-- `_hex_to_point` behind the tests on the length and the prefix.
abbrev pub lift_x : ℕ → ℕ → Point
lift_x prefix x =
    let y_sq = y_squared x in
    let y = root_of y_sq in
    if leb field_prime x
    then none
    else if not (y * y % field_prime == y_sq)
    then none
    else if (y % 2 == 0) && (prefix == 2) || not (y % 2 == 0) && not (prefix == 2)
    then some (x, y)
    else some (x, field_prime - y)

unfoldable pub decode_point : Bytes → Point
decode_point [] = none
decode_point (prefix ∷ rest) =
    if (length rest == 32) && (prefix == 2 || prefix == 3)
    then lift_x prefix (from_be 0 rest)
    else none

unfoldable pub hex_to_point : Text → Result Point
hex_to_point hex_str = from_hex hex_str >>= λ raw. ok (decode_point raw)

-- `p == q`
unfoldable pub point_beq : Point → Point → Bool
point_beq none none = true
point_beq none (some q) = false
point_beq (some p) none = false
point_beq (some (x1, y1)) (some (x2, y2)) = (x1 == x2) && (y1 == y2)

module _ (sha256 : Bytes → Bytes) where
  -- One round of `_hash_to_curve`: the point that the counter gives, if it serves.
  unfoldable pub try_counter : Bytes → ℕ → Result Point
  try_counter seed counter = to_be 4 counter >>= λ count.
      let x = from_be 0 (sha256 (seed ++ count)) % field_prime in
      let y_sq = y_squared x in
      let y = root_of y_sq in
      let serves =
        (y * y % field_prime == y_sq)
        && is_on_curve (x, y)
        && not (point_beq (some (x, y)) generator)
        && point_beq (point_mul (pos group_order) (some (x, y))) none in
      ok (if serves then some (x, y) else none)

  unfoldable pub hash_rounds : ℕ → ℕ → Bytes → Result (ℕ × ℕ)
  hash_rounds zero counter seed = err runtime_error
  hash_rounds (suc rounds) counter seed = try_counter seed counter >>= λ point.
      let rest = hash_rounds rounds (suc counter) seed in elim point [ none ↦ rest | some p ↦ ok p ]

  -- The counters 0 to 10000 are tried.
  unfoldable pub hash_to_curve : Bytes → Result (ℕ × ℕ)
  unfolding hash_rounds
  hash_to_curve seed = hash_rounds 10_001 0 seed
