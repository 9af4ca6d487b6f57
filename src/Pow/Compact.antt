-- ===== src/Pow/Compact.antt =====
-- The compact form of a target: what is kept and what is lost between `bits_to_target` and
-- `target_to_bits` (agent/modules/blockchain_core.py, lines 32 to 43).
use bitchchain.Base.{
  ℕ, zero, suc, ◌+◌, ◌-◌, ◌*◌, ◌/◌, ◌%◌, ◌^◌, ◌≤◌, ◌<◌, ◌≡◌, refl, sym, ap, ◌∙◌, inl, inr, false,
  Bool-cases, arith, ltb, ltb→lt, lt→ltb, le→leb, ok,
}
use native.Mathlib.Nat.{
  pow-suc, mul_assoc, mul-div_cancel, le_trans, div-mul-le_self, mul-le-mul_right,
  mul-lt-mul_of_pos_right, one-le-pow, div-eq_of_lt, mod-le, le-div_iff_mul-le,
}
use bitchchain.Pow.{
  whole, bits_to_target, target_to_bits, hex_digits, significant_digits, exponent_of,
  coefficient_of,
}

hex_digits-zero : (fuel : ℕ) → hex_digits fuel 0 ≡ 0
unfolding hex_digits
hex_digits-zero zero = refl
hex_digits-zero (suc fuel) = refl

-- A number between two neighbouring powers of 16 has that many digits, if the fuel allows.
hex_digits-eq : (fuel d n : ℕ) → d < fuel → 16 ^ d ≤ n → n < 16 ^ suc d → hex_digits fuel n ≡ suc d
unfolding hex_digits
hex_digits-eq zero d n h lo hi = absurd (omega arith)
hex_digits-eq (suc fuel) zero n h lo hi =
    rw (lt→ltb 0 n (omega (arith, lo)))
      (ap suc (rw (div-eq_of_lt {n = n} {m = 16} (omega (arith, hi))) (hex_digits-zero fuel)))
hex_digits-eq (suc fuel) (suc d) n h lo hi =
    let lo' : 16 ^ d * 16 ≤ n = rw pow-suc at lo in
    let hi' : n < 16 ^ suc d * 16 = rw pow-suc at hi in
    let pos : 1 ≤ 16 ^ d = one-le-pow d 16 (omega arith) in
    rw (lt→ltb 0 n (omega arith))
      (ap suc (hex_digits-eq fuel d (n / 16) (omega arith) (omega arith) (omega arith)))

hex_digits_le : (fuel n : ℕ) → hex_digits fuel n ≤ fuel
unfolding hex_digits
hex_digits_le zero n = omega arith
hex_digits_le (suc fuel) n = ground (arith, hex_digits_le fuel (n / 16))

-- 256 ^ k is 16 ^ (2 * k) and 2 ^ (8 * k).
pow_256-hex : (k : ℕ) → 256 ^ k ≡ 16 ^ (2 * k)
pow_256-hex zero = refl
pow_256-hex (suc k) =
    let step : 16 ^ (2 * suc k) ≡ 16 ^ (2 * k) * 16 * 16 =
      rw (two_steps k) (rw (pow-suc, pow-suc)) in
    rw (pow-suc, step) (omega (arith, pow_256-hex k))
  where
    two_steps : (j : ℕ) → 2 * suc j ≡ suc (suc (2 * j))
    two_steps j = omega arith

pow_256-bits : (k : ℕ) → 256 ^ k ≡ 2 ^ (8 * k)
pow_256-bits zero = refl
pow_256-bits (suc k) =
    let eight : 8 * suc k ≡ suc (suc (suc (suc (suc (suc (suc (suc (8 * k)))))))) = omega arith in
    rw (eight, pow-suc) (pow_256-bits_step (8 * k) (256 ^ k) (pow_256-bits k))
  where
    pow_256-bits_step :
        (m p : ℕ) → p ≡ 2 ^ m → p * 256 ≡ 2 ^ suc (suc (suc (suc (suc (suc (suc (suc m)))))))
    pow_256-bits_step m p e = simp pow-suc (omega (arith, e))

abbrev five_more : ℕ → ℕ
five_more d = suc (suc (suc (suc (suc d))))

pow_16_five : (k : ℕ) → 16 ^ five_more (2 * k) ≡ 256 ^ k * 2 ^ 20
pow_16_five k = simp pow-suc (omega (arith, pow_256-hex k))

-- A target whose leading part has between 21 and 28 bits has exponent `k + 3`.
significant_digits-lead :
    (k n : ℕ)
    → 2 ^ 20 * 256 ^ k ≤ n
    → n < 2 ^ 28 * 256 ^ k
    → k ≤ 28
    → significant_digits n / 2 ≡ k + 3
unfolding significant_digits
significant_digits-lead k n lo hi fits =
    let five = pow_16_five k in
    elim (Bool-cases (ltb n (2 ^ 24 * 256 ^ k))) [
      | inl six ↦
          let most = ltb→lt n (2 ^ 24 * 256 ^ k) six in
          rw
            (hex_digits-eq 64 (five_more (2 * k)) n (omega arith) (omega arith)
              (rw pow-suc (omega arith)))
            (omega arith)
      | inr seven ↦
          let least : 2 ^ 24 * 256 ^ k ≤ n = ground arith in
          rw
            (hex_digits-eq 64 (suc (five_more (2 * k))) n (omega arith) (rw pow-suc (omega arith))
              (rw (pow-suc, pow-suc) (omega arith)))
            (omega arith)
    ]

-- Every such target is encoded by its leading part without the bits above the lowest 23.
pub target_to_bits-lead :
    (k n : ℕ)
    → 2 ^ 20 * 256 ^ k ≤ n
    → n < 2 ^ 28 * 256 ^ k
    → k ≤ 28
    → target_to_bits n ≡ ok ((k + 3) * 2 ^ 24 + n / 256 ^ k % 2 ^ 23)
unfolding target_to_bits
target_to_bits-lead k n lo hi fits =
    let shift : 8 * (k + 3 - 3) ≡ 8 * k = omega arith in
    rw (significant_digits-lead k n lo hi fits, ge k, shift, ← pow_256-bits k)
  where
    ge : (j : ℕ) → ltb (j + 3) 3 ≡ false
    ge j = ground arith

target_to_bits-multiple :
    (k c : ℕ)
    → 2 ^ 20 ≤ c
    → c < 2 ^ 28
    → k ≤ 28
    → target_to_bits (c * 256 ^ k) ≡ ok ((k + 3) * 2 ^ 24 + c % 2 ^ 23)
target_to_bits-multiple k c lo hi fits =
    target_to_bits-lead k (c * 256 ^ k) (mul-le-mul_right (256 ^ k) lo)
      (mul-lt-mul_of_pos_right hi (one-le-pow k 256 (omega arith))) fits
    ∙ ap (λ (x : ℕ). ok ((k + 3) * 2 ^ 24 + x % 2 ^ 23))
        (mul-div_cancel c (one-le-pow k 256 (omega arith)))

bits_to_target-parts :
    (k c : ℕ) → c < 2 ^ 23 → bits_to_target ((k + 3) * 2 ^ 24 + c) ≡ whole (c * 256 ^ k)
unfolding bits_to_target
bits_to_target-parts k c h =
    let e : exponent_of ((k + 3) * 2 ^ 24 + c) ≡ k + 3 = omega arith in
    let f : coefficient_of ((k + 3) * 2 ^ 24 + c) ≡ c = omega arith in
    let g : k + 3 - 3 ≡ k = omega arith in rw (e, f, g, le→leb 3 (k + 3) (omega arith))

-- Bits in normal form, with an exponent from 3 to 31 and a coefficient of six hexadecimal digits
-- whose sign bit is clear, decode to a target that is encoded by the same bits.
pub target_to_bits-bits_to_target :
    (bits : ℕ)
    → 3 ≤ exponent_of bits
    → exponent_of bits ≤ 31
    → 2 ^ 20 ≤ coefficient_of bits
    → bits % 2 ^ 24 < 2 ^ 23
    → (t : ℕ) × (bits_to_target bits ≡ whole t) × (target_to_bits t ≡ ok bits)
target_to_bits-bits_to_target bits lo hi lead sign =
    let k = exponent_of bits - 3 in
    let c = coefficient_of bits in
    let parts : bits ≡ (k + 3) * 2 ^ 24 + c = omega arith in
    let low : c < 2 ^ 23 = omega arith in
    let same : c % 2 ^ 23 ≡ c = omega arith in
    (
      c * 256 ^ k,
      ap bits_to_target parts ∙ bits_to_target-parts k c low,
      target_to_bits-multiple k c lead (omega arith) (omega arith)
          ∙ ap (λ x. ok ((k + 3) * 2 ^ 24 + x)) same
          ∙ ap ok (sym parts),
    )

double-lt : (c p : ℕ) → 2 ^ 23 ≤ c → 0 < p → 2 * (c % 2 ^ 23 * p) < c * p
double-lt c p big positive =
    rw (← mul_assoc 2 (c % 2 ^ 23) p) (mul-lt-mul_of_pos_right (omega arith) positive)

-- Where the leading part of a target, that is the target without its lowest `k` bytes for a `k` up to
-- 28, has 24 to 28 bits, encoding drops its highest ones: the bits decode to less than half of the
-- target, whatever its lower bytes are.
pub target_to_bits-halves :
    (k target : ℕ)
    → 2 ^ 23 * 256 ^ k ≤ target
    → target < 2 ^ 28 * 256 ^ k
    → k ≤ 28
    → (bits t : ℕ) × (target_to_bits target ≡ ok bits)
      × (bits_to_target bits ≡ whole t)
      × (2 * t < target)
target_to_bits-halves k target lo hi fits =
    let p = 256 ^ k in
    let positive : 0 < p = one-le-pow k 256 (omega arith) in
    let c = target / p in
    let lead : 2 ^ 23 ≤ c = (le-div_iff_mul-le positive).1 lo in
    let least : 2 ^ 20 * p ≤ target = le_trans (mul-le-mul_right p (omega arith)) lo in
    let half : 2 * (c % 2 ^ 23 * p) < c * p = double-lt c p lead positive in
    let under : c * p ≤ target = div-mul-le_self target p in
    (
      (k + 3) * 2 ^ 24 + c % 2 ^ 23,
      c % 2 ^ 23 * p,
      target_to_bits-lead k target least hi fits,
      bits_to_target-parts k (c % 2 ^ 23) (omega arith),
      omega (arith, half, under),
    )

decoded-le :
    (e target bits : ℕ)
    → 3 ≤ e
    → e * 2 ^ 24 + target / 2 ^ (8 * (e - 3)) % 2 ^ 23 ≡ bits
    → (t : ℕ) × (bits_to_target bits ≡ whole t) × (t ≤ target)
decoded-le e target bits h encoded =
    let k = e - 3 in
    let x = target / 2 ^ (8 * k) % 2 ^ 23 in
    let back : bits ≡ (k + 3) * 2 ^ 24 + x = omega (arith, encoded) in
    let cut : x ≤ target / 2 ^ (8 * k) = mod-le (target / 2 ^ (8 * k)) (2 ^ 23) in
    (
      x * 256 ^ k,
      ap bits_to_target back ∙ bits_to_target-parts k x (omega arith),
      rw (pow_256-bits k)
          (le_trans (mul-le-mul_right (2 ^ (8 * k)) cut) (div-mul-le_self target (2 ^ (8 * k)))),
    )

-- Encoding never raises a target: what the new bits decode to is at most what was encoded.
pub target_to_bits-le :
    (target bits : ℕ)
    → target_to_bits target ≡ ok bits
    → (t : ℕ) × (bits_to_target bits ≡ whole t) × (t ≤ target)
unfolding target_to_bits
target_to_bits-le target bits h = elim (Bool-cases (ltb (significant_digits target / 2) 3)) [
  | inl small ↦ absurd (cc (rw small at h))
  | inr big ↦
      decoded-le (significant_digits target / 2) target bits (ground arith)
        (ground (arith, rw big at h))
]
