-- ===== src/Base/Strings/Numerals.antt =====
-- Python's `hex(n)` for a natural number, and `int(s, 16)` on a text with or without the prefix
-- "0x". Signs, white space and underscores, which `int` takes too, are refused here.
use Prim.Native.Nat.{ℕ, zero, suc, ◌+◌, ◌*◌, ◌/◌, ◌%◌, ◌≤◌, ◌<◌}
use mathlib.Core.Path.{◌≡◌, ap, ◌∙◌}
use mathlib.Core.Bool.{◌||◌, false}
use mathlib.Core.Logic.{inl, inr}
use mathlib.Core.List.{[], ◌∷◌}
use native.Mathlib.Omega.{arith}
use bitchchain.Base.Tests.{◌==◌, if◌then◌else◌, Bool-cases}
use bitchchain.Base.Exception.{Result, ok}
use bitchchain.Base.Strings.{
  Text, hex_digit, hex_number, int_hex, hex_value-hex_digit, hex, from_be, Bytes, AreBytes,
  int_hex-hex,
}

-- The digits of n in front of a text.
unfoldable pub digits_before : ℕ → ℕ → Text → Text
digits_before zero n t = t
digits_before (suc fuel) n t =
    let rest = digits_before fuel (n / 16) (hex_digit (n % 16) ∷ t) in if n == 0 then t else rest

unfoldable pub hex_text : ℕ → Text
hex_text n = 48 ∷ 120 ∷ (if n == 0 then 48 ∷ [] else digits_before n n [])

unfoldable pub parse_hex : Text → Result ℕ
parse_hex [] = int_hex []
parse_hex (c ∷ []) = int_hex (c ∷ [])
parse_hex (c ∷ d ∷ s) =
    if c == 48
    then if d == 120 || d == 88 then int_hex s else int_hex (c ∷ d ∷ s)
    else int_hex (c ∷ d ∷ s)

hex_number-digits_before :
    (fuel n : ℕ) (t : Text) → n ≤ fuel → hex_number 0 (digits_before fuel n t) ≡ hex_number n t
unfolding digits_before hex_number
hex_number-digits_before zero n t h = ap (λ k. hex_number k t) (omega (arith, h))
hex_number-digits_before (suc fuel) n t h = elim (Bool-cases (n == 0)) [
  | inl nothing ↦ rw nothing (ap (λ k. hex_number k t) (ground arith))
  | inr more ↦
      let whole : 16 * (n / 16) + n % 16 ≡ n = omega arith in
      rw more (
        hex_number-digits_before fuel (n / 16) (hex_digit (n % 16) ∷ t) (ground arith)
        ∙ rw (hex_value-hex_digit (n % 16) (omega arith)) (ap (λ k. hex_number k t) whole))
]

int_hex_nonzero : (t : Text) (n : ℕ) → (n == 0) ≡ false → hex_number 0 t ≡ ok n → int_hex t ≡ ok n
unfolding int_hex hex_number
int_hex_nonzero [] n more h = ground arith
int_hex_nonzero (c ∷ s) n more h = h

-- A number that `hex` wrote is read back.
pub parse_hex-hex_text : (n : ℕ) → parse_hex (hex_text n) ≡ ok n
unfolding parse_hex hex_text int_hex hex_number
parse_hex-hex_text n = elim (Bool-cases (n == 0)) [
  | inl nothing ↦ rw nothing (ap ok (ground arith))
  | inr more ↦ rw more (
      int_hex_nonzero (digits_before n n []) n more (hex_number-digits_before n n [] (omega arith)))
]

digit_no_x : (d : ℕ) → d < 16 → (hex_digit d == 120 || hex_digit d == 88) ≡ false
digit_no_x d h = ground arith

-- The hexadecimal form of bytes has no prefix.
pub parse_hex-hex :
    (b : ℕ) (bs : Bytes) → AreBytes (b ∷ bs) → parse_hex (hex (b ∷ bs)) ≡ ok (from_be 0 (b ∷ bs))
unfolding parse_hex hex
parse_hex-hex b bs h = ground (arith, digit_no_x (b % 16), int_hex-hex b bs h)
