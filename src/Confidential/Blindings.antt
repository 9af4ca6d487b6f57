-- ===== src/Confidential/Blindings.antt =====
-- The blinding factors of a range proof (`RangeProof.create`, agent/modules/privacy_layer.py, lines
-- 254 to 266).
use bitchchain.Base.{
  ℕ, suc, ◌+◌, ◌-◌, ◌*◌, ◌/◌, ◌%◌, ◌^◌, ◌<◌, ◌≡◌, refl, sym, ap, ◌∙◌, List, [], ◌∷◌, ◌++◌, length,
  arith,
}
use native.Mathlib.Nat.{
  add-mod-mod, mod-mod, mod-lt, div-add-mod, add-mul-mod_self_left, mul_assoc, mul_comm, one-mul,
  pow-suc, add-mul, mul-add,
}
use bitchchain.Curve.{group_order, sub_mod, mod_inv, pow_mod, pow_loop}
use bitchchain.Confidential.{range_proof_bits, weighted_sum, last_blinding, blindings_of}

mul-mod_inner : (a b m : ℕ) → (a % m * b) % m ≡ (a * b) % m
mul-mod_inner a b m =
    let split : a % m * b + m * (a / m * b) ≡ a * b = omega (
      arith,
      ap (λ t. t * b) (div-add-mod a m),
      add-mul (m * (a / m)) (a % m) b,
      mul_assoc m (a / m) b,
    ) in
    sym (add-mul-mod_self_left (a % m * b) m (a / m * b)) ∙ ap (λ t. t % m) split

-- What is left of the total, times the inverse of a weight, at that weight.
left_over : (d inv w m : ℕ) → (inv * w) % m ≡ 1 → (d * inv % m * w) % m ≡ d % m
left_over d inv w m unit =
    mul-mod_inner (d * inv) w m
    ∙ ap (λ t. t % m) (mul_assoc d inv w ∙ mul_comm d (inv * w))
    ∙ sym (mul-mod_inner (inv * w) d m)
    ∙ ap (λ t. (t * d) % m) unit
    ∙ ap (λ t. t % m) (one-mul d)

closing :
    (s total inv w m : ℕ)
    → 0 < m
    → (inv * w) % m ≡ 1
    → (s + sub_mod total (s % m) m * inv % m * w) % m ≡ total % m
closing s total inv w m some_m unit =
    let d = sub_mod total (s % m) m in
    let gap : s + (total + (m - s % m)) ≡ total + m * suc (s / m) =
      omega (arith, div-add-mod s m, mod-lt s {m = m} some_m, mul-add m 1 (s / m)) in
    sym (add-mod-mod s (d * inv % m * w) m)
    ∙ ap (λ t. (s + t) % m) (left_over d inv w m unit)
    ∙ add-mod-mod s d m
    ∙ add-mod-mod s (total + (m - s % m % m)) m
    ∙ ap (λ t. (s + (total + (m - t))) % m) (mod-mod s m)
    ∙ ap (λ t. t % m) gap
    ∙ add-mul-mod_self_left total m (suc (s / m))

weighted_sum-append :
    (w : ℕ) (xs ys : List ℕ)
    → weighted_sum w (xs ++ ys) ≡ weighted_sum w xs + weighted_sum (2 ^ length xs * w) ys
unfolding weighted_sum
weighted_sum-append w [] ys = omega (arith, ap (λ v. weighted_sum v ys) (one-mul w))
weighted_sum-append w (x ∷ xs) ys =
    let shifted : 2 ^ length xs * (2 * w) ≡ 2 ^ suc (length xs) * w =
      sym (mul_assoc (2 ^ length xs) 2 w) ∙ ap (λ t. t * w) (sym (pow-suc 2 (length xs))) in
    omega (arith, weighted_sum-append (2 * w) xs ys, ap (λ v. weighted_sum v ys) shifted)

-- 2 ^ 63 is invertible modulo the order of the group.
top_weight :
    (mod_inv (2 ^ (range_proof_bits - 1) % group_order) group_order * 2 ^ 63) % group_order ≡ 1
unfolding mod_inv pow_mod pow_loop
top_weight = refl

-- The blinding factors of the bits are chosen so that, each at the weight of its bit, they sum up to
-- the total's blinding factor modulo the order of the group, whatever 63 factors were drawn.
pub blindings_of_sum :
    (total : ℕ) (firsts : List ℕ)
    → length firsts ≡ 63
    → weighted_sum 1 (blindings_of total firsts) % group_order ≡ total % group_order
unfolding blindings_of weighted_sum last_blinding
blindings_of_sum total firsts drawn =
    let last = last_blinding total firsts in
    let s = weighted_sum 1 firsts in
    let inv = mod_inv (2 ^ (range_proof_bits - 1) % group_order) group_order in
    let at_top : weighted_sum (2 ^ length firsts * 1) (last ∷ []) ≡ last * 2 ^ 63 =
      ap (λ n. weighted_sum (2 ^ n * 1) (last ∷ [])) drawn ∙ omega arith in
    ap (λ t. t % group_order) (weighted_sum-append 1 firsts (last ∷ []) ∙ ap (λ t. s + t) at_top)
    ∙ closing s total inv (2 ^ 63) group_order (omega arith) top_weight
