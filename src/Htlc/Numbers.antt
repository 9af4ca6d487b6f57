-- ===== src/Htlc/Numbers.antt =====
-- Script numbers: an independent reading of one push of a number, against `_encode_script_number`.
use bitchchain.Base.{
  from_le, take, drop, ℕ, zero, suc, ◌+◌, ◌-◌, ◌*◌, ◌/◌, ◌%◌, ◌^◌, ◌≤◌, ◌<◌, ◌≡◌, refl, ap, ◌∙◌,
  ◌&&◌, Option, none, some, [], ◌∷◌, ◌++◌, length, ltb, leb, ◌==◌, if◌then◌else◌, Text, Bytes, hex,
  arith, ℤ, pos, sub_ℕ,
}
use bitchchain.Htlc.{upper_digits, format_02x, encode_script_number}

-- The bytes that `_encode_script_number` stands for.
unfoldable pub push_bytes : ℕ → Bytes
push_bytes n =
    if n == 0
    then 0 ∷ []
    else if leb n 16
    then (0x50 + n) ∷ []
    else if ltb n 0x80
    then 1 ∷ n ∷ []
    else if ltb n 0x8000
    then 2 ∷ (n % 256) ∷ (n / 256 % 256) ∷ []
    else if ltb n 0x800000
    then 3 ∷ (n % 256) ∷ (n / 256 % 256) ∷ (n / 65536 % 256) ∷ []
    else 4 ∷ (n % 256) ∷ (n / 256 % 256) ∷ (n / 65536 % 256) ∷ (n / 16777216 % 256) ∷ []

-- How a Bitcoin node reads one push as a number: OP_0, OP_1 to OP_16, or one to four little-endian
-- bytes whose top bit is a sign; the value and the rest of the script.
abbrev pub signed : ℕ → ℕ → ℤ
signed half v = if ltb v half then pos v else sub_ℕ 0 (v - half)

unfoldable pub read_push : Bytes → Option (ℤ × Bytes)
read_push [] = none
read_push (op ∷ rest) =
    if op == 0
    then some (pos 0, rest)
    else if leb 0x51 op && leb op 0x60
    then some (pos (op - 0x50), rest)
    else if leb op 4 && leb op (length rest)
    then some (signed (128 * 256 ^ (op - 1)) (from_le (take op rest)), drop op rest)
    else none

upper_digits-zero : (fuel : ℕ) (t : Text) → upper_digits fuel 0 t ≡ t
unfolding upper_digits
upper_digits-zero zero t = refl
upper_digits-zero (suc fuel) t = refl

-- A byte is written as its two digits.
pub format_02x-byte : (b : ℕ) → b < 256 → format_02x b ≡ hex (b ∷ [])
unfolding format_02x
format_02x-byte b h =
    let high : b / 256 ≡ 0 = omega arith in
    let low : b % 256 ≡ b = omega arith in
    ap (λ x. upper_digits b x (hex (b % 256 ∷ []))) high
    ∙ upper_digits-zero b (hex (b % 256 ∷ []))
    ∙ ap (λ x. hex (x ∷ [])) low

-- The text is the hexadecimal form of the bytes, for every number.
pub encode_script_number-bytes : (n : ℕ) → encode_script_number n ≡ hex (push_bytes n)
unfolding encode_script_number push_bytes hex
encode_script_number-bytes n = ground (
  arith,
  format_02x-byte (0x50 + n),
  format_02x-byte n,
  format_02x-byte (n % 256),
  format_02x-byte (n / 2 ^ 8 % 256),
  format_02x-byte (n / 2 ^ 16 % 256),
  format_02x-byte (n / 2 ^ 24 % 256),
)

pub read_push-push_bytes :
    (n : ℕ) (rest : Bytes) → n < 2 ^ 31 → read_push (push_bytes n ++ rest) ≡ some (pos n, rest)
unfolding read_push push_bytes from_le
read_push-push_bytes n rest h = ground arith

pub read_push-overflow :
    (n : ℕ) (rest : Bytes)
    → 2 ^ 31 ≤ n
    → n < 2 ^ 32
    → read_push (push_bytes n ++ rest) ≡ some (sub_ℕ 0 (n - 2 ^ 31), rest)
unfolding read_push push_bytes from_le
read_push-overflow n rest lo hi = ground arith

-- Below 2 ^ 31 the text encodes bytes of which a Bitcoin node reads the number back, and goes on
-- behind the push.
pub encode_script_number-read :
    (n : ℕ) (rest : Bytes)
    → n < 2 ^ 31
    → (bytes : Bytes) × (encode_script_number n ≡ hex bytes)
      × (read_push (bytes ++ rest) ≡ some (pos n, rest))
encode_script_number-read n rest h =
    (push_bytes n, encode_script_number-bytes n, read_push-push_bytes n rest h)

-- From 2 ^ 31 on, below 2 ^ 32, the number takes the sign bit of the fourth byte: of the encoded
-- bytes a node reads minus the excess over 2 ^ 31.
pub encode_script_number-overflow :
    (n : ℕ) (rest : Bytes)
    → 2 ^ 31 ≤ n
    → n < 2 ^ 32
    → (bytes : Bytes) × (encode_script_number n ≡ hex bytes)
      × (read_push (bytes ++ rest) ≡ some (sub_ℕ 0 (n - 2 ^ 31), rest))
encode_script_number-overflow n rest lo hi =
    (push_bytes n, encode_script_number-bytes n, read_push-overflow n rest lo hi)
