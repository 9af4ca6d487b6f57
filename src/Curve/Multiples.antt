-- ===== src/Curve/Multiples.antt =====
-- The loop of `_point_mul` (agent/modules/privacy_layer.py, lines 53 to 64) against repeated
-- addition.
use bitchchain.Base.{
  ℕ, zero, suc, ◌*◌, ◌/◌, ◌%◌, ◌^◌, ◌<◌, ◌≡◌, refl, sym, ap, ◌∙◌, inl, inr, Bool-cases, ◌==◌, arith,
}
use native.Mathlib.Nat.{pow-suc}
use bitchchain.Curve.{double_and_add}

module _ {ℓ} {A : Type ℓ} (add : A → A → A) (infinity : A) where
  -- The n-fold sum.
  unfoldable pub times : ℕ → A → A
  times zero a = infinity
  times (suc n) a = add a (times n a)

  module _ (add_assoc : (a b c : A) → add (add a b) c ≡ add a (add b c))
      (left : (a : A) → add infinity a ≡ a) (right : (a : A) → add a infinity ≡ a) where
    times-twice : (k : ℕ) (a : A) → times k (add a a) ≡ times (2 * k) a
    unfolding times
    times-twice zero a = refl
    times-twice (suc k) a =
        let next : suc (suc (2 * k)) ≡ 2 * suc k = omega arith in
        add_assoc a a (times k (add a a))
        ∙ ap (λ t. add a (add a t)) (times-twice k a)
        ∙ ap (λ n. times n a) next

    -- The two halves of a scalar.
    times-even :
        (scalar : ℕ) (a : A) → scalar % 2 ≡ 0 → times (scalar / 2) (add a a) ≡ times scalar a
    times-even scalar a even =
        let halves : 2 * (scalar / 2) ≡ scalar = omega arith in
        times-twice (scalar / 2) a ∙ ap (λ n. times n a) halves

    times-odd :
        (scalar : ℕ) (a : A)
        → scalar % 2 ≡ 1
        → add a (times (scalar / 2) (add a a)) ≡ times scalar a
    unfolding times
    times-odd scalar a odd =
        let halves : suc (2 * (scalar / 2)) ≡ scalar = omega arith in
        ap (add a) (times-twice (scalar / 2) a) ∙ ap (λ n. times n a) halves

    -- For an associative addition with a neutral element, the loop adds to its accumulator the
    -- scalar-fold sum of the addend, for every scalar below two to the power of its fuel.
    pub double_and_add-times :
        (fuel scalar : ℕ) (result addend : A)
        → scalar < 2 ^ fuel
        → double_and_add add fuel scalar result addend ≡ add result (times scalar addend)
    unfolding double_and_add times
    double_and_add-times zero scalar result addend h =
        let none_left : 0 ≡ scalar = omega arith in
        sym (right result) ∙ ap (λ n. add result (times n addend)) none_left
    double_and_add-times (suc fuel) scalar result addend h =
        let half : scalar / 2 < 2 ^ fuel = omega (arith, pow-suc 2 fuel) in
        elim (Bool-cases (scalar == 0)) [
          | inl nothing ↦
              let none_left : 0 ≡ scalar = ground arith in
              rw nothing (sym (right result) ∙ ap (λ n. add result (times n addend)) none_left)
          | inr more ↦ elim (Bool-cases (scalar % 2 == 1)) [
            | inl odd ↦
                rw (more, odd)
                  (double_and_add-times fuel (scalar / 2) (add result addend) (add addend addend)
                      half
                    ∙ add_assoc result addend (times (scalar / 2) (add addend addend))
                    ∙ ap (add result) (times-odd scalar addend (ground arith)))
            | inr even ↦
                rw (more, even)
                  (double_and_add-times fuel (scalar / 2) result (add addend addend) half
                    ∙ ap (add result) (times-even scalar addend (ground arith)))
          ]
        ]
