-- ===== src/Transfers/Decoding.antt =====
-- The decoding of amounts (agent/modules/privacy_layer.py, lines 316 to 366): a committed amount is
-- found by trying multiples of H.
use bitchchain.Base.{
  ℕ, zero, suc, ◌+◌, ◌*◌, ◌/◌, ◌&&◌, Option, none, some, Text, ltb, leb, if◌then◌else◌, pos, Result,
  ok, ◌>>=◌,
}
use bitchchain.Curve.{Point, generator, point_add, point_mul, point_neg, hex_to_point, point_beq}

module _ (h : Point) where
  -- `baby_table`: the last j below the size whose multiple of H is the point.
  unfoldable pub baby_lookup : ℕ → Point → Option ℕ
  baby_lookup zero p = none
  baby_lookup (suc j) p =
      let earlier = baby_lookup j p in if point_beq (point_mul (pos j) h) p then some j else earlier

  unfoldable pub in_table : Point → ℕ → Option ℕ
  in_table none size = none
  in_table (some p) size = baby_lookup size (some p)

  -- The giant steps; the candidate is tried against the commitment before it is returned.
  unfoldable pub giant_steps : ℕ → ℕ → ℕ → ℕ → Point → Point → Point → Option ℕ
  giant_steps zero m size max_value blinded target current = none
  giant_steps (suc rounds) m size max_value blinded target current =
      let next = point_add current (point_neg (point_mul (pos size) h)) in
      let later = giant_steps rounds (suc m) size max_value blinded target next in
      if point_beq current none then none else elim (in_table current size) [
        | none ↦ later
        | some j ↦
            let v = m * size + j in
            if leb v max_value && point_beq (point_add blinded (point_mul (pos v) h)) target
            then some v
            else later
      ]

  -- `_baby_step_giant_step_decode` and `_fast_decode_amount` up to their searches: the commitment,
  -- its blinding part and what is left of it.
  abbrev pub decode_with : (Point → Point → Point → Option ℕ) → Text → ℕ → Result (Option ℕ)
  decode_with search_value commitment_hex blinding_factor = hex_to_point commitment_hex >>= λ c.
      let blinded = point_mul (pos blinding_factor) generator in
      let target = point_add c (point_neg blinded) in
      ok (
        if point_beq c none
        then none
        else if point_beq blinded none
        then none
        else if point_beq target none
        then some 0
        else search_value blinded c target)

  abbrev pub giant_search : ℕ → ℕ → Point → Point → Point → Option ℕ
  giant_search max_value size blinded c target =
      giant_steps (max_value / size + 2) 0 size max_value blinded c target

  unfoldable pub bsgs_decode : ℕ → ℕ → Text → ℕ → Result (Option ℕ)
  bsgs_decode max_value size = decode_with (giant_search max_value size)

  -- The loop `for v in range(quick_max)`
  unfoldable pub quick_search : ℕ → ℕ → Point → Point → Option ℕ
  quick_search zero v vh target = none
  quick_search (suc rounds) v vh target =
      let next = if point_beq vh none then h else point_add vh h in
      let later = quick_search rounds (suc v) next target in
      if point_beq next target then some v else later

  abbrev quick_max : ℕ → ℕ
  quick_max max_value = if ltb 10_000_000 max_value then 10_000_000 else max_value

  abbrev pub fast_search : ℕ → Point → Point → Point → Option ℕ
  fast_search max_value blinded c target = elim (quick_search (quick_max max_value) 0 none target) [
    | some v ↦ some v
    | none ↦ giant_search max_value 65_536 blinded c target
  ]

  -- `_fast_decode_amount`, which is `recipient_decode_amount`
  unfoldable pub decode_amount : ℕ → Text → ℕ → Result (Option ℕ)
  decode_amount max_value = decode_with (fast_search max_value)
