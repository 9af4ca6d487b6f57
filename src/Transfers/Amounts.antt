-- ===== src/Transfers/Amounts.antt =====
-- The amounts that a recipient reads (`_baby_step_giant_step_decode`, `_fast_decode_amount`,
-- agent/modules/privacy_layer.py, lines 316 to 365).
use bitchchain.Base.{
  ℕ, zero, suc, ◌+◌, ◌*◌, ◌/◌, ◌≤◌, ◌≡◌, refl, sym, ap, ◌∙◌, ◌⊎◌, inl, inr, Bool, true, false, ◌&&◌,
  Option, none, some, Text, leb, leb→le, if◌then◌else◌, pos, ok, >>=-eq-ok, Bool-cases,
  Option-cases, arith,
}
use bitchchain.Curve.{Point, generator, point_add, point_mul, point_neg, point_beq, hex_to_point}
use bitchchain.Transfers.Decoding.{giant_steps, giant_search, bsgs_decode, quick_search, in_table}

both : (a b : Bool) → (a && b) ≡ true → (a ≡ true) × (b ≡ true)
both a b h = ground arith

chosen :
    (a b z : Bool) (s : Option ℕ) (v : ℕ)
    → (if a then none else if b then none else if z then some 0 else s) ≡ some v
    → ((z ≡ true) × (v ≡ 0)) ⊎ (s ≡ some v)
chosen true b z s v e = absurd (cc e)
chosen false true z s v e = absurd (cc e)
chosen false false true s v e = inl (refl, cc e)
chosen false false false s v e = inr e

module _ (h : Point) where
  -- The v-fold sum that the quick search runs through.
  unfoldable pub multiple : ℕ → Point
  multiple zero = none
  multiple (suc n) = if point_beq (multiple n) none then h else point_add (multiple n) h

  -- Where the quick search answers v, what is left of the commitment is the sum of v + 1 times H:
  -- the answer is one less than the amount.
  pub quick_search_shift :
      (rounds v found : ℕ) (target : Point)
      → quick_search h rounds v (multiple v) target ≡ some found
      → point_beq (multiple (suc found)) target ≡ true
  unfolding quick_search multiple
  quick_search_shift zero v found target answer = absurd (cc answer)
  quick_search_shift (suc rounds) v found target answer =
      elim (Bool-cases (point_beq (multiple (suc v)) target)) [
        | inl hit ↦
            let same : v ≡ found = cc (rw hit at answer) in
            ap (λ n. point_beq (multiple (suc n)) target) (sym same) ∙ hit
        | inr miss ↦ quick_search_shift rounds (suc v) found target (rw miss at answer)
      ]

  giant_steps_sound :
      (rounds m size max_value : ℕ) (blinded c current : Point) (v : ℕ)
      → giant_steps h rounds m size max_value blinded c current ≡ some v
      → (v ≤ max_value) × (point_beq (point_add blinded (point_mul (pos v) h)) c ≡ true)
  unfolding giant_steps
  giant_steps_sound zero m size max_value blinded c current v answer = absurd (cc answer)
  giant_steps_sound (suc rounds) m size max_value blinded c current v answer =
      let next = point_add current (point_neg (point_mul (pos size) h)) in
      let later = giant_steps_sound rounds (suc m) size max_value blinded c next v in
      elim (Bool-cases (point_beq current none)) [
        | inl finished ↦ absurd (cc (rw finished at answer))
        | inr more ↦ elim (Option-cases (in_table h current size)) [
          | inl missing ↦ later (rw (more, missing, giant_steps) at answer)
          | inr (j, present) ↦
              elim (Bool-cases (
                leb (m * size + j) max_value
                && point_beq (point_add blinded (point_mul (pos (m * size + j)) h)) c)) [
                  | inl checked ↦
                      let same : m * size + j ≡ v =
                        cc (rw (more, present, checked, giant_steps) at answer) in
                      let (small, right) =
                        both (leb (m * size + j) max_value)
                          (point_beq (point_add blinded (point_mul (pos (m * size + j)) h)) c)
                          checked in
                      (
                        omega (arith, same, leb→le (m * size + j) max_value small),
                        ap (λ n. point_beq (point_add blinded (point_mul (pos n) h)) c) (sym same)
                            ∙ right,
                      )
                  | inr wrong ↦ later (rw (more, present, wrong, giant_steps) at answer)
                ]
        ]
      ]

  -- What the slow search answers is the amount: with the blinding part it gives the commitment, and
  -- it is at most the given maximum. The commitment to zero is answered before the search.
  pub bsgs_decode_sound :
      (max_value size blinding_factor v : ℕ) (commitment_hex : Text)
      → bsgs_decode h max_value size commitment_hex blinding_factor ≡ ok (some v)
      → let blinded = point_mul (pos blinding_factor) generator in
        (c : Point) × (hex_to_point commitment_hex ≡ ok c)
        × (((point_beq (point_add c (point_neg blinded)) none ≡ true) × (v ≡ 0))
            ⊎ ((v ≤ max_value) × (point_beq (point_add blinded (point_mul (pos v) h)) c ≡ true)))
  unfolding bsgs_decode
  bsgs_decode_sound max_value size blinding_factor v commitment_hex answer =
      let blinded = point_mul (pos blinding_factor) generator in
      let (c, read, decoded) =
        >>=-eq-ok (hex_to_point commitment_hex)
          (λ c.
            let target = point_add c (point_neg blinded) in
            ok (
              if point_beq c none
              then none
              else if point_beq blinded none
              then none
              else if point_beq target none
              then some 0
              else giant_search h max_value size blinded c target))
          answer in
      let target = point_add c (point_neg blinded) in
      (
        c,
        read,
        elim (chosen (point_beq c none) (point_beq blinded none) (point_beq target none)
            (giant_search h max_value size blinded c target) v (cc decoded)) [
              | inl at_once ↦ inl at_once
              | inr searched ↦ inr (
                  giant_steps_sound (max_value / size + 2) 0 size max_value blinded c target v
                    searched)
            ],
      )
