-- ===== src/Base/BigEndian.antt =====
-- `int.to_bytes(k, "big")` and `int.from_bytes(bs, "big")`, each the converse of the other.
use Prim.Native.Nat.{ℕ, zero, suc, ◌+◌, ◌*◌, ◌/◌, ◌%◌, ◌^◌, ◌<◌}
use mathlib.Core.Path.{◌≡◌, refl, sym, ap, ◌∙◌}
use mathlib.Core.List.{[], ◌∷◌, ◌++◌, reverse, reverse-cons, reverse-reverse}
use native.Mathlib.Omega.{arith}
use native.Mathlib.Nat.{pow-suc}
use bitchchain.Base.Tests.{if◌then◌else◌, ltb, lt→ltb}
use bitchchain.Base.Lists.{length, length-reverse}
use bitchchain.Base.Exception.{Result, ok, err, overflow_error}
use bitchchain.Base.Strings.{
  Bytes, AreBytes, from_be, from_le, le_bytes, from_le-le_bytes, length-le_bytes,
}

abbrev pub be_bytes : ℕ → ℕ → Bytes
be_bytes k n = reverse (le_bytes k n)

unfoldable pub to_be : ℕ → ℕ → Result Bytes
to_be k n = if ltb n (256 ^ k) then ok (be_bytes k n) else err overflow_error

from_be-append : (acc b : ℕ) (xs : Bytes) → from_be acc (xs ++ b ∷ []) ≡ 256 * from_be acc xs + b
unfolding from_be
from_be-append acc b [] = refl
from_be-append acc b (x ∷ xs) = from_be-append (256 * acc + x) b xs

from_be-reverse : (bs : Bytes) → from_be 0 (reverse bs) ≡ from_le bs
unfolding from_le from_be
from_be-reverse [] = refl
from_be-reverse (b ∷ bs) =
    ap (from_be 0) (reverse-cons b bs)
    ∙ from_be-append 0 b (reverse bs)
    ∙ omega (arith, from_be-reverse bs)

pub from_be-be_bytes : (k n : ℕ) → n < 256 ^ k → from_be 0 (be_bytes k n) ≡ n
from_be-be_bytes k n h = from_be-reverse (le_bytes k n) ∙ from_le-le_bytes k n h

pub length-be_bytes : (k n : ℕ) → length (be_bytes k n) ≡ k
length-be_bytes k n = length-reverse (le_bytes k n) ∙ length-le_bytes k n

le_bytes-from_le : (bs : Bytes) → AreBytes bs → le_bytes (length bs) (from_le bs) ≡ bs
unfolding le_bytes from_le
le_bytes-from_le [] h = refl
le_bytes-from_le (b ∷ bs) h =
    let low : (b + 256 * from_le bs) % 256 ≡ b = omega arith in
    let high : (b + 256 * from_le bs) / 256 ≡ from_le bs = omega arith in
    rw (low, high, le_bytes-from_le bs h.1)

pub AreBytes-append : (xs ys : Bytes) → AreBytes xs → AreBytes ys → AreBytes (xs ++ ys)
AreBytes-append [] ys h k = k
AreBytes-append (x ∷ xs) ys h k = (h.0, AreBytes-append xs ys h.1 k)

pub AreBytes-reverse : (bs : Bytes) → AreBytes bs → AreBytes (reverse bs)
AreBytes-reverse [] h = tt
AreBytes-reverse (b ∷ bs) h =
    rw (reverse-cons b bs)
      (AreBytes-append (reverse bs) (b ∷ []) (AreBytes-reverse bs h.1) (h.0, tt))

pub be_bytes-from_be : (bs : Bytes) → AreBytes bs → be_bytes (length bs) (from_be 0 bs) ≡ bs
be_bytes-from_be bs h =
    let back : from_be 0 bs ≡ from_le (reverse bs) =
      ap (from_be 0) (sym (reverse-reverse bs)) ∙ from_be-reverse (reverse bs) in
    ap (λ n. reverse (le_bytes (length bs) n)) back
    ∙ ap (λ k. reverse (le_bytes k (from_le (reverse bs)))) (sym (length-reverse bs))
    ∙ ap reverse (le_bytes-from_le (reverse bs) (AreBytes-reverse bs h))
    ∙ reverse-reverse bs

-- A number of k big-endian bytes is below 256 ^ k.
from_le-lt : (bs : Bytes) → AreBytes bs → from_le bs < 256 ^ length bs
unfolding from_le
from_le-lt [] h = omega arith
from_le-lt (b ∷ bs) h = rw pow-suc (omega (arith, from_le-lt bs h.1))

pub from_be-lt : (bs : Bytes) → AreBytes bs → from_be 0 bs < 256 ^ length bs
from_be-lt bs h =
    let back : from_be 0 bs ≡ from_le (reverse bs) =
      ap (from_be 0) (sym (reverse-reverse bs)) ∙ from_be-reverse (reverse bs) in
    rw (back, sym (length-reverse bs)) (from_le-lt (reverse bs) (AreBytes-reverse bs h))

le_bytes-AreBytes : (k n : ℕ) → AreBytes (le_bytes k n)
unfolding le_bytes
le_bytes-AreBytes zero n = tt
le_bytes-AreBytes (suc k) n = (omega arith, le_bytes-AreBytes k (n / 256))

pub be_bytes-AreBytes : (k n : ℕ) → AreBytes (be_bytes k n)
be_bytes-AreBytes k n = AreBytes-reverse (le_bytes k n) (le_bytes-AreBytes k n)

pub to_be_fits : (k n : ℕ) → n < 256 ^ k → to_be k n ≡ ok (be_bytes k n)
unfolding to_be
to_be_fits k n h = rw (lt→ltb n (256 ^ k) h) refl

-- The first bytes weigh more than those that follow.
pub from_be-split : (acc : ℕ) (bs : Bytes) → from_be acc bs ≡ acc * 256 ^ length bs + from_be 0 bs
unfolding from_be
from_be-split acc [] = omega arith
from_be-split acc (b ∷ bs) =
    let p = 256 ^ length bs in
    let tail : from_be (256 * 0 + b) bs ≡ b * p + from_be 0 bs =
      from_be-split (256 * 0 + b) bs ∙ ap (λ k. k * p + from_be 0 bs) (omega arith) in
    from_be-split (256 * acc + b) bs
    ∙ grind (arith, tail, ap (λ q. acc * q) (pow-suc 256 (length bs)))
