-- ===== src/Base/Strings.antt =====
-- Texts as lists of code points and bytes as lists of numbers: equality, and Python's
-- `bytes.hex`, `bytes.fromhex`, `int(s, 16)` and `int.from_bytes`.
pub mod Numerals
use Prim.Native.Char.{code}
use Prim.Native.String.{String}
use Prim.Native.Nat.{ℕ, zero, suc, ◌+◌, ◌-◌, ◌*◌, ◌/◌, ◌%◌, ◌^◌, ◌<◌}
use mathlib.Core.Path.{◌≡◌, refl, ap, ◌∙◌}
use mathlib.Core.Logic.{◌↔◌}
use mathlib.Core.Bool.{Bool, true, false, ◌&&◌, ◌||◌}
use mathlib.Core.List.{List, [], ◌∷◌}
use native.Mathlib.Omega.{arith}
use bitchchain.Base.Tests.{ltb, leb, ◌==◌, if◌then◌else◌, Eq}
use bitchchain.Base.Exception.{Result, ok, err, value_error, struct_error, ◌>>=◌}
use bitchchain.Base.Lists.{length}
use native.Mathlib.Nat.{div-lt_iff_lt-mul, pow-suc}

abbrev pub Text : Type 0
Text = List ℕ

abbrev pub Bytes : Type 0
Bytes = List ℕ

abbrev pub text : String → Text
text String.[] = []
text (String.◌∷◌ c s) = code c ∷ text s

unfoldable pub text_beq : Text → Text → Bool
text_beq [] [] = true
text_beq [] (y ∷ ys) = false
text_beq (x ∷ xs) [] = false
text_beq (x ∷ xs) (y ∷ ys) = (x == y) && text_beq xs ys

pub text_beq_iff : (a b : Text) → (text_beq a b ≡ true) ↔ (a ≡ b)
unfolding text_beq
text_beq_iff [] [] = ground arith
text_beq_iff [] (y ∷ ys) = ground arith
text_beq_iff (x ∷ xs) [] = ground arith
text_beq_iff (x ∷ xs) (y ∷ ys) = ground (arith, text_beq_iff xs ys)

instance abbrev pub text_eq : Eq Text
text_eq = record { beq = text_beq; beq_iff = text_beq_iff }

-- `bytes.hex()`
abbrev hex_digit : ℕ → ℕ
hex_digit d = if ltb d 10 then d + 48 else d + 87

unfoldable pub hex : Bytes → Text
hex [] = []
hex (b ∷ bs) = hex_digit (b / 16) ∷ hex_digit (b % 16) ∷ hex bs

-- The value of one hexadecimal digit, in either case.
abbrev pub hex_value : ℕ → Result ℕ
hex_value c =
    if leb 48 c && leb c 57
    then ok (c - 48)
    else if leb 97 c && leb c 102
    then ok (c - 87)
    else if leb 65 c && leb c 70
    then ok (c - 55)
    else err value_error

abbrev is_space : ℕ → Bool
is_space c = c == 32 || (leb 9 c && leb c 13)

-- `bytes.fromhex(s)`: white space between bytes is skipped, all else raises `ValueError`.
unfoldable pub from_hex : Text → Result Bytes
from_hex [] = ok []
from_hex (c ∷ []) = if is_space c then ok [] else err value_error
from_hex (c ∷ d ∷ s) =
    let skipped = from_hex (d ∷ s) in
    let rest = from_hex s in
    if is_space c
    then skipped
    else hex_value c >>= λ hi. hex_value d >>= λ lo. rest >>= λ bs. ok ((16 * hi + lo) ∷ bs)

-- `int(s, 16)` on a text of digits; the empty text raises.
hex_number : ℕ → Text → Result ℕ
hex_number acc [] = ok acc
hex_number acc (c ∷ s) = hex_value c >>= λ d. hex_number (16 * acc + d) s

unfoldable pub int_hex : Text → Result ℕ
unfolding hex_number
int_hex [] = err value_error
int_hex (c ∷ s) = hex_number 0 (c ∷ s)

-- `int.from_bytes(bs, "big")`
unfoldable pub from_be : ℕ → Bytes → ℕ
from_be acc [] = acc
from_be acc (b ∷ bs) = from_be (256 * acc + b) bs

-- `struct.pack` of an unsigned number into `k` little-endian bytes.
unfoldable pub le_bytes : ℕ → ℕ → Bytes
le_bytes zero n = []
le_bytes (suc k) n = (n % 256) ∷ le_bytes k (n / 256)

unfoldable pub pack : ℕ → ℕ → Result Bytes
pack k n = if ltb n (256 ^ k) then ok (le_bytes k n) else err struct_error

-- The number that little-endian bytes stand for (`struct.unpack`).
unfoldable pub from_le : Bytes → ℕ
from_le [] = 0
from_le (b ∷ bs) = b + 256 * from_le bs

abbrev pub AreBytes : List ℕ → Type 0
AreBytes [] = Unit
AreBytes (b ∷ bs) = (b < 256) × AreBytes bs

-- The two digits of a byte are read back.
hex_value-hex_digit : (d : ℕ) → d < 16 → hex_value (hex_digit d) ≡ ok d
hex_value-hex_digit d h = ground arith

hex_digit-not-space : (d : ℕ) → d < 16 → is_space (hex_digit d) ≡ false
hex_digit-not-space d h = ground arith

pub from_hex-hex : (bs : Bytes) → AreBytes bs → from_hex (hex bs) ≡ ok bs
unfolding from_hex hex
from_hex-hex [] h = refl
from_hex-hex (b ∷ bs) h =
    rw
      (
        hex_digit-not-space (b / 16) (omega arith),
        hex_value-hex_digit (b / 16) (omega arith),
        hex_value-hex_digit (b % 16) (omega arith),
        from_hex-hex bs h.1,
      )
      (ap (λ t. ok (t ∷ bs)) (omega arith))

hex_number-hex :
    (acc : ℕ) (bs : Bytes) → AreBytes bs → hex_number acc (hex bs) ≡ ok (from_be acc bs)
unfolding hex_number hex from_be
hex_number-hex acc [] h = refl
hex_number-hex acc (b ∷ bs) h =
    rw (hex_value-hex_digit (b / 16) (omega arith), hex_value-hex_digit (b % 16) (omega arith))
      (hex_number-hex (16 * (16 * acc + b / 16) + b % 16) bs h.1
        ∙ ap (λ t. ok (from_be t bs)) (omega arith))

-- `int(bs.hex(), 16)` is the big-endian number of the bytes.
pub int_hex-hex :
    (b : ℕ) (bs : Bytes) → AreBytes (b ∷ bs) → int_hex (hex (b ∷ bs)) ≡ ok (from_be 0 (b ∷ bs))
unfolding int_hex hex
int_hex-hex b bs h = hex_number-hex 0 (b ∷ bs) h

pub from_le-le_bytes : (k n : ℕ) → n < 256 ^ k → from_le (le_bytes k n) ≡ n
unfolding from_le le_bytes
from_le-le_bytes zero n h = omega (arith, h)
from_le-le_bytes (suc k) n h =
    omega
      (arith, from_le-le_bytes k (n / 256) ((div-lt_iff_lt-mul (omega arith)).1 (rw pow-suc at h)))

pub length-le_bytes : (k n : ℕ) → length (le_bytes k n) ≡ k
unfolding le_bytes
length-le_bytes zero n = refl
length-le_bytes (suc k) n = ap suc (length-le_bytes k (n / 256))
