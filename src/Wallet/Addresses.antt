-- ===== src/Wallet/Addresses.antt =====
-- Base58Check (`_base58check_encode`, `_address_to_hash160`, agent/modules/wallet.py, lines 33 to
-- 130).
use bitchchain.Base.{
  ℕ, zero, suc, ◌+◌, ◌-◌, ◌*◌, ◌/◌, ◌%◌, ◌^◌, ◌≤◌, ◌<◌, ◌≡◌, ◌≢◌, refl, sym, ap, ◌∙◌, inl, inr,
  Bool, true, false, ◌&&◌, [], ◌∷◌, ◌++◌, Text, Bytes, AreBytes, text_beq, text_beq_iff, ltb, ◌==◌,
  ==_iff, if◌then◌else◌, take, drop, length, length-append, length-take, take_exact, drop_exact,
  Result, ok, err, from_be, value_error, arith, Bool-cases,
}
use mathlib.Core.Path.{subst}
use bitchchain.Base.BigEndian.{
  to_be, to_be_fits, be_bytes, be_bytes-from_be, from_be-lt, AreBytes-append, from_be-split,
}
use bitchchain.Tx.{sha256d}
use bitchchain.Wallet.{
  starts_with_one, alphabet, symbol_at, index_of, base58_digits, leading_ones, drop_nuls,
  base58_number, first_width, address_bytes, double_checksum, base58check_encode, open_payload,
  address_to_hash160,
}

all_below : ℕ → (ℕ → Bool) → Bool
all_below zero p = true
all_below (suc n) p = p n && all_below n p

all_below_at : (n : ℕ) (p : ℕ → Bool) (x : ℕ) → all_below n p ≡ true → x < n → p x ≡ true
unfolding all_below
all_below_at zero p x h lt = absurd (omega (arith, lt))
all_below_at (suc n) p x h lt = ground (arith, all_below_at n p x)

abbrev finds : ℕ → Bool
finds r = elim (index_of (symbol_at r alphabet) alphabet) [ ok i ↦ i == r | err e ↦ false ]

finds_all : all_below 58 finds ≡ true
unfolding all_below index_of symbol_at
finds_all = refl

index_of-symbol_at : (r : ℕ) → r < 58 → index_of (symbol_at r alphabet) alphabet ≡ ok r
index_of-symbol_at r h =
    found (index_of (symbol_at r alphabet) alphabet) (all_below_at 58 finds r finds_all h)
  where
    found : (i : Result ℕ) → elim i [ ok i ↦ i == r | err e ↦ false ] ≡ true → i ≡ ok r
    found (ok i) e = ap ok ((==_iff i r).0 e)
    found (err e) f = absurd (cc f)

-- The symbols of a number are read back.
base58_number-digits :
    (rounds n : ℕ) (t : Text)
    → n ≤ rounds
    → base58_number 0 (base58_digits rounds n t) ≡ base58_number n t
unfolding base58_number base58_digits
base58_number-digits zero n t h = ap (λ k. base58_number k t) (omega (arith, h))
base58_number-digits (suc rounds) n t h = elim (Bool-cases (ltb 0 n)) [
  | inl more ↦
      let whole : n / 58 * 58 + n % 58 ≡ n = omega arith in
      rw more (
        base58_number-digits rounds (n / 58) (symbol_at (n % 58) alphabet ∷ t) (ground arith)
        ∙ rw (index_of-symbol_at (n % 58) (omega arith)) (ap (λ k. base58_number k t) whole))
  | inr finished ↦ rw finished (ap (λ k. base58_number k t) (ground arith))
]

one_read : (t : Text) → base58_number 0 (49 ∷ t) ≡ base58_number 0 t
unfolding base58_number index_of
one_read t = refl

take-AreBytes : (n : ℕ) (bs : Bytes) → AreBytes bs → AreBytes (take n bs)
take-AreBytes zero bs h = tt
take-AreBytes (suc n) [] h = tt
take-AreBytes (suc n) (b ∷ bs) h = (h.0, take-AreBytes n bs h.1)

base58_number-leading_ones :
    (bs : Bytes) (t : Text) → base58_number 0 (leading_ones bs t) ≡ base58_number 0 t
unfolding leading_ones
base58_number-leading_ones [] t = refl
base58_number-leading_ones (b ∷ bs) t = elim (Bool-cases (b == 0)) [
  | inl nul ↦ rw nul (base58_number-leading_ones bs (49 ∷ t) ∙ one_read t)
  | inr other ↦ rw other refl
]

-- The number of an encoded payload is that of its bytes with their checksum.
number_of-encoded :
    (sha256 : Bytes → Bytes) (payload : Bytes)
    → base58_number 0 (base58check_encode sha256 payload)
      ≡ ok (from_be 0 (payload ++ double_checksum sha256 payload))
unfolding base58check_encode base58_number
number_of-encoded sha256 payload =
    let bytes = payload ++ double_checksum sha256 payload in
    let n = from_be 0 bytes in
    base58_number-leading_ones bytes (base58_digits n n [])
    ∙ base58_number-digits n n [] (omega arith)

-- A payload with its checksum is opened.
open_payload-sealed :
    (sha256 : Bytes → Bytes) (payload sum : Bytes)
    → length sum ≡ 4
    → open_payload sha256 (payload ++ sum) ≡ (
        if text_beq sum (double_checksum sha256 payload)
        then ok (drop 1 payload)
        else err value_error)
unfolding open_payload
open_payload-sealed sha256 payload sum four =
    let short : length payload ≡ length (payload ++ sum) - 4 =
      omega (arith, length-append payload sum, four) in
    rw
      (
        take_exact (length (payload ++ sum) - 4) payload sum short,
        drop_exact (length (payload ++ sum) - 4) payload sum short,
      )
      refl

-- The bytes of a number of 25 bytes, and of one of 24.
address_bytes_nonzero :
    (address : Text) (b : ℕ) (rest : Bytes)
    → 0 < b
    → length rest ≡ 24
    → AreBytes (b ∷ rest)
    → address_bytes address (from_be 0 (b ∷ rest)) ≡ ok (b ∷ rest)
unfolding address_bytes drop_nuls
address_bytes_nonzero address b rest positive long valid =
    let n = from_be 0 (b ∷ rest) in
    let size : length (b ∷ rest) ≡ 25 = omega (arith, long) in
    let small : n < 256 ^ 25 = subst (λ k. n < 256 ^ k) size (from_be-lt (b ∷ rest) valid) in
    let read : be_bytes 25 n ≡ b ∷ rest =
      ap (λ k. be_bytes k n) (sym size) ∙ be_bytes-from_be (b ∷ rest) valid in
    rw (to_be_fits 25 n small, read) (ground arith)

first_width_24 :
    (n : ℕ) (unchanged : Bytes)
    → 256 ^ 23 ≤ n
    → n < 256 ^ 24
    → first_width 10 20 n unchanged ≡ be_bytes 24 n
unfolding first_width
first_width_24 n unchanged lo hi = ground arith

drop_nuls_kept : (b : ℕ) (rest : Bytes) → 0 < b → drop_nuls (b ∷ rest) ≡ b ∷ rest
unfolding drop_nuls
drop_nuls_kept b rest positive = ground arith

drop_nuls_zero : (bs : Bytes) → drop_nuls (0 ∷ bs) ≡ drop_nuls bs
unfolding drop_nuls
drop_nuls_zero bs = refl

if_same : (c : Bool) (bs : Bytes) → (if c then bs else bs) ≡ bs
if_same true bs = refl
if_same false bs = refl

leading_zero : (bs : Bytes) → from_be 0 (0 ∷ bs) ≡ from_be 0 bs
unfolding from_be
leading_zero bs = refl

from_be-least : (b : ℕ) (rest : Bytes) → 0 < b → 256 ^ length rest ≤ from_be 0 (b ∷ rest)
unfolding from_be
from_be-least b rest positive =
    let p = 256 ^ length rest in
    let whole : from_be (256 * 0 + b) rest ≡ b * p + from_be 0 rest =
      from_be-split (256 * 0 + b) rest ∙ ap (λ k. k * p + from_be 0 rest) (omega arith) in
    let again : 1 + (b - 1) ≡ b = omega arith in
    let more : b * p ≡ p + (b - 1) * p = ap (λ k. k * p) (sym again) ∙ grind arith in
    omega (arith, whole, more)

-- What is left of 24 bytes once the zeros are dropped is written out again with 24 bytes.
settled_24 :
    (starts : Bool) (n b : ℕ) (rest : Bytes)
    → 0 < b
    → length rest ≡ 23
    → ((unchanged : Bytes) → first_width 10 20 n unchanged ≡ b ∷ rest)
    → let trimmed =
        if starts then drop_nuls (drop_nuls (0 ∷ b ∷ rest)) else drop_nuls (0 ∷ b ∷ rest) in
      (if length trimmed == 25 then trimmed else first_width 10 20 n trimmed) ≡ b ∷ rest
settled_24 starts n b rest positive long exact =
    let kept : drop_nuls (b ∷ rest) ≡ b ∷ rest = drop_nuls_kept b rest positive in
    let stripped : drop_nuls (0 ∷ b ∷ rest) ≡ b ∷ rest = drop_nuls_zero (b ∷ rest) ∙ kept in
    rw (stripped, kept, if_same starts (b ∷ rest), exact (b ∷ rest)) (ground (arith, long))

address_bytes_zero :
    (address : Text) (b : ℕ) (rest : Bytes)
    → 0 < b
    → length rest ≡ 23
    → AreBytes (b ∷ rest)
    → address_bytes address (from_be 0 (0 ∷ b ∷ rest)) ≡ ok (b ∷ rest)
unfolding address_bytes
address_bytes_zero address b rest positive long valid =
    let n = from_be 0 (0 ∷ b ∷ rest) in
    let same : n ≡ from_be 0 (b ∷ rest) = leading_zero (b ∷ rest) in
    let size : length (0 ∷ b ∷ rest) ≡ 25 = omega (arith, long) in
    let shorter : length (b ∷ rest) ≡ 24 = omega (arith, long) in
    let fits : n < 256 ^ 24 =
      subst (λ k. n < 256 ^ k) shorter
        (subst (λ m. m < 256 ^ length (b ∷ rest)) (sym same) (from_be-lt (b ∷ rest) valid)) in
    let least : 256 ^ 23 ≤ n =
      subst (λ k. 256 ^ k ≤ n) long
        (subst (λ m. 256 ^ length rest ≤ m) (sym same) (from_be-least b rest positive)) in
    let read : to_be 25 n ≡ ok (0 ∷ b ∷ rest) =
      to_be_fits 25 n (omega (arith, fits))
      ∙ ap ok (
          ap (λ k. be_bytes k n) (sym size)
          ∙ be_bytes-from_be (0 ∷ b ∷ rest) (omega arith, valid)) in
    let exact : (unchanged : Bytes) → first_width 10 20 n unchanged ≡ b ∷ rest = λ unchanged.
      first_width_24 n unchanged least fits
      ∙ ap (λ k. be_bytes k n) (sym shorter)
      ∙ ap (be_bytes (length (b ∷ rest))) same
      ∙ be_bytes-from_be (b ∷ rest) valid in
    rw read (ap ok (settled_24 (starts_with_one address) n b rest positive long exact))

module _ (sha256 : Bytes → Bytes)
    (width : (bytes : Bytes) → (length (sha256 bytes) ≡ 32) × AreBytes (sha256 bytes)) where
  checksum-width : (payload : Bytes) → length (double_checksum sha256 payload) ≡ 4
  unfolding sha256d
  checksum-width payload =
      omega (arith, length-take 4 (sha256 (sha256 payload)), (width (sha256 payload)).0)

  checksum-AreBytes : (payload : Bytes) → AreBytes (double_checksum sha256 payload)
  unfolding sha256d
  checksum-AreBytes payload = take-AreBytes 4 (sha256 (sha256 payload)) (width (sha256 payload)).1

  -- An address with a prefix other than zero is read back as its twenty bytes.
  pub address_to_hash160-encode :
      (prefix : ℕ) (h : Bytes)
      → 0 < prefix
      → length h ≡ 20
      → AreBytes (prefix ∷ h)
      → address_to_hash160 sha256 (base58check_encode sha256 (prefix ∷ h)) ≡ ok h
  unfolding address_to_hash160
  address_to_hash160-encode prefix h positive twenty valid =
      let sum = double_checksum sha256 (prefix ∷ h) in
      let address = base58check_encode sha256 (prefix ∷ h) in
      let wide : length (h ++ sum) ≡ 24 =
        omega (arith, length-append h sum, twenty, checksum-width (prefix ∷ h)) in
      rw
        (
          number_of-encoded sha256 (prefix ∷ h),
          address_bytes_nonzero address prefix (h ++ sum) positive wide
              (valid.0, AreBytes-append h sum valid.1 (checksum-AreBytes (prefix ∷ h))),
        )
        (open_payload-sealed sha256 (prefix ∷ h) sum (checksum-width (prefix ∷ h))
          ∙ rw ((text_beq_iff sum sum).1 refl) refl)

  -- An address with the prefix zero, for twenty bytes that do not begin with zero, is not read back:
  -- unless the checksums of the payload with and without its prefix agree, its decoding raises
  -- `ValueError`.
  pub address_to_hash160_zero_prefix :
      (b : ℕ) (h : Bytes)
      → 0 < b
      → length h ≡ 19
      → AreBytes (b ∷ h)
      → double_checksum sha256 (0 ∷ b ∷ h) ≢ double_checksum sha256 (b ∷ h)
      → address_to_hash160 sha256 (base58check_encode sha256 (0 ∷ b ∷ h)) ≡ err value_error
  unfolding address_to_hash160
  address_to_hash160_zero_prefix b h positive nineteen valid differ =
      let sum = double_checksum sha256 (0 ∷ b ∷ h) in
      let address = base58check_encode sha256 (0 ∷ b ∷ h) in
      let wide : length (h ++ sum) ≡ 23 =
        omega (arith, length-append h sum, nineteen, checksum-width (0 ∷ b ∷ h)) in
      rw
        (
          number_of-encoded sha256 (0 ∷ b ∷ h),
          address_bytes_zero address b (h ++ sum) positive wide
              (valid.0, AreBytes-append h sum valid.1 (checksum-AreBytes (0 ∷ b ∷ h))),
        )
        (open_payload-sealed sha256 (b ∷ h) sum (checksum-width (0 ∷ b ∷ h))
          ∙ ground (arith, differ, text_beq_iff sum (double_checksum sha256 (b ∷ h))))
