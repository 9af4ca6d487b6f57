-- ===== src/Finality/Slashing.antt =====
-- Slashing a validator (`slash_validator` and the sums over active validators,
-- agent/modules/consensus_engine.py, lines 116 to 135).
use bitchchain.Base.{
  ◌+◌, ◌≡◌, refl, sym, ap, ◌∙◌, inl, inr, true, false, none, some, [], ◌∷◌, Text, text_beq,
  text_beq_iff, text_eq, arith, Bool-cases, Table, select, update, select-update, IsKeyed, beq_refl,
}
use bitchchain.Finality.{
  ValidatorRecord, Registry, counts, sum_stakes, slash, slash_validator, get_validator,
}

update-absent :
    (address : Text) (f : ValidatorRecord → ValidatorRecord) (rows : Table Text ValidatorRecord)
    → select address rows ≡ none
    → update address f rows ≡ rows
update-absent address f [] h = refl
update-absent address f ((k, v) ∷ rows) h = ground (arith, update-absent address f rows)

sum_stakes-slash :
    (address : Text) (v : ValidatorRecord) (rows : Table Text ValidatorRecord)
    → IsKeyed rows
    → select address rows ≡ some v
    → counts v ≡ true
    → sum_stakes (update address slash rows) + v.stake_satoshis ≡ sum_stakes rows
unfolding sum_stakes
sum_stakes-slash address v [] keyed h c = cc
sum_stakes-slash address v ((k, w) ∷ rows) keyed h c = elim (Bool-cases (text_beq k address)) [
  | inl same ↦
      let alone : select address rows ≡ none =
        ap (λ x. select x rows) (sym ((text_beq_iff k address).0 same)) ∙ keyed.0 in
      ground (arith, update-absent address slash rows alone)
  | inr other ↦ ground (arith, sum_stakes-slash address v rows keyed.1)
]

-- Slashing an active validator marks it slashed and inactive, takes exactly its stake out of the
-- active total, and leaves any other validator as it was.
pub slash_validator-effect :
    (address other : Text) (v : ValidatorRecord) (reg : Registry)
    → IsKeyed reg.validators
    → get_validator address reg ≡ some v
    → counts v ≡ true
    → text_beq address other ≡ false
    → let after = slash_validator address reg in
      (get_validator address after ≡ some (slash v))
      × (sum_stakes after.validators + v.stake_satoshis ≡ sum_stakes reg.validators)
      × (get_validator other after ≡ get_validator other reg)
unfolding slash_validator get_validator
slash_validator-effect address other v reg keyed h c ne = (
  select-update address address slash reg.validators ∙ rw (beq_refl address, h),
  sum_stakes-slash address v reg.validators keyed h c,
  select-update address other slash reg.validators ∙ rw ne,
)
