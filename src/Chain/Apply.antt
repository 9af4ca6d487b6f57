-- ===== src/Chain/Apply.antt =====
-- `Blockchain.apply_block`: what an accepted block leaves behind, what a refused one leaves alone,
-- and what a block that fails half-way leaves in the set of unspent outputs.
use bitchchain.Base.{
  ◌⊎◌, ℕ, ◌≡◌, refl, sym, ap, ◌∙◌, inl, inr, Bool, true, false, Option, some, Text, Bytes, text_eq,
  arith, ok, ◌>>=◌, >>=-eq-ok, select, replace, select-replace, beq_refl,
}
use mathlib.Core.Path.{ap₂, subst}
use bitchchain.Json.{Codec}
use bitchchain.Tx.{Block}
use bitchchain.Tx.Dict.{block_to_dict, block_of_dict-block_to_dict}
use bitchchain.Utxo.{outpoint_eq}
use bitchchain.Chain.{
  Chain, Verdict, valid, apply_txs, get_block, tip_block, block_row, connect_block, conclude,
  apply_block, validate_block,
}
use bitchchain.Chain.Accept.{IsAcceptable, validate_block_iff}

-- What is relied on of the JSON library: the text of a block's dictionary is read back as it was.
abbrev pub ReadsBack : Codec → Type 0
ReadsBack codec = (b : Block) → codec.loads (codec.dumps (block_to_dict b)) ≡ ok (block_to_dict b)

module _ (codec : Codec) where
  open codec use {Raw}

  -- The chain `after` is `before` with the accepted block on top.
  pub record Extends (before : Chain Raw) (block : Block) (after : Chain Raw) : Type 0 where
    pub spent :
        apply_txs block.header.height block.transactions before.utxo_set ≡ (ok tt, after.utxo_set)
    pub stored : after.blocks ≡ replace block.block_hash (block_row codec block) before.blocks
    pub saved : after.meta_tip ≡ some block.block_hash
    pub tip : after.chain_tip ≡ some block.block_hash
    pub high : after.height ≡ block.header.height

  -- All but the set of unspent outputs is as it was.
  pub record Untouched (before after : Chain Raw) : Type 0 where
    pub blocks : after.blocks ≡ before.blocks
    pub saved : after.meta_tip ≡ before.meta_tip
    pub tip : after.chain_tip ≡ before.chain_tip
    pub high : after.height ≡ before.height

  pub connect_block-true :
      (block : Block) (chain after : Chain Raw)
      → connect_block codec block chain ≡ (true, after)
      → Extends chain block after
  unfolding connect_block
  connect_block-true block chain after h = ground arith

  pub connect_block-false :
      (block : Block) (chain after : Chain Raw)
      → connect_block codec block chain ≡ (false, after)
      → Untouched chain after
        × (after.utxo_set ≡ (apply_txs block.header.height block.transactions chain.utxo_set).1)
  unfolding connect_block
  connect_block-false block chain after h = ground arith

  abbrev pub UtxosFrom : Chain Raw → Block → Chain Raw → Type 0
  UtxosFrom before block after =
      (after.utxo_set ≡ (apply_txs block.header.height block.transactions before.utxo_set).1)
      ⊎ (after.utxo_set ≡ before.utxo_set)

  connect_block-utxos :
      (block : Block) (chain : Chain Raw)
      → (connect_block codec block chain).1.utxo_set
        ≡ (apply_txs block.header.height block.transactions chain.utxo_set).1
  unfolding connect_block
  connect_block-utxos block chain = ground arith

  conclude-utxos :
      (chain : Chain Raw) (verdict : Verdict) (checked : Block)
      → let out = conclude codec chain (verdict, checked) in UtxosFrom chain out.1 out.2
  unfolding conclude
  conclude-utxos chain valid checked = inl (connect_block-utxos checked chain)
  conclude-utxos chain _ checked = inr refl

  concluded :
      (chain after : Chain Raw) (verdict : Verdict) (checked block : Block)
      → conclude codec chain (verdict, checked) ≡ (true, block, after)
      → (verdict ≡ valid) × (checked ≡ block) × (connect_block codec checked chain ≡ (true, after))
  unfolding conclude
  concluded chain after valid checked block h = (refl, ap (λ p. p.1) h, ap (λ p. (p.0, p.2)) h)
  concluded chain after _ checked block h = absurd (cc h)

  refused :
      (chain after : Chain Raw) (verdict : Verdict) (checked block : Block)
      → conclude codec chain (verdict, checked) ≡ (false, block, after)
      → Untouched chain after
  unfolding conclude
  refused chain after valid checked block h =
      (connect_block-false checked chain after (ap (λ p. (p.0, p.2)) h)).0
  refused chain after _ checked block h =
      let same : chain ≡ after = ap (λ p. p.2) h in
      record {
        blocks = ap (λ (c : Chain Raw). c.blocks) (sym same);
        saved = ap (λ (c : Chain Raw). c.meta_tip) (sym same);
        tip = ap (λ (c : Chain Raw). c.chain_tip) (sym same);
        high = ap (λ (c : Chain Raw). c.height) (sym same);
      }

  pub get_block-of_row :
      (c : Chain Raw) (hash : Text) (block : Block)
      → ReadsBack codec
      → select hash c.blocks ≡ some (block_row codec block)
      → get_block codec c hash ≡ ok (some block)
  unfolding get_block block_row
  get_block-of_row c hash block reads row =
      rw (row, get_block, reads block, block_of_dict-block_to_dict block)

  -- The block is found under its hash, equal in every field.
  get_block-Extends :
      (before after : Chain Raw) (block : Block)
      → ReadsBack codec
      → Extends before block after
      → get_block codec after block.block_hash ≡ ok (some block)
  get_block-Extends before after block reads x =
      get_block-of_row after block.block_hash block reads (
        ap (select block.block_hash) x.stored
        ∙ select-replace block.block_hash block.block_hash (block_row codec block) before.blocks
        ∙ rw (beq_refl block.block_hash))

module _ (sha256 : Bytes → Bytes) (codec : Codec) where
  open codec use {Raw}

  apply_block-parts :
      (now : ℕ) (block : Block) (chain : Chain Raw) {out : Bool × Block × Chain Raw}
      → apply_block sha256 codec now block chain ≡ ok out
      → (prev : Option Block) × (validated : Verdict × Block) × (tip_block codec chain ≡ ok prev)
        × (validate_block sha256 codec now block prev ≡ ok validated)
        × (conclude codec chain validated ≡ out)
  unfolding apply_block
  apply_block-parts now block chain h =
      let (prev, e, after) =
        >>=-eq-ok (tip_block codec chain)
          (λ prev. validate_block sha256 codec now block prev >>= λ v. ok (conclude codec chain v))
          h in
      let (validated, f, done) =
        >>=-eq-ok (validate_block sha256 codec now block prev) (λ v. ok (conclude codec chain v))
          after in
      (prev, validated, e, f, cc done)

  pub apply_block-Extends :
      (now : ℕ) (block checked : Block) (chain after : Chain Raw)
      → apply_block sha256 codec now block chain ≡ ok (true, checked, after)
      → Extends codec chain checked after
  apply_block-Extends now block checked chain after h =
      let (prev, (verdict, found), e, f, done) = apply_block-parts now block chain h in
      let (good, same, connected) = concluded codec chain after verdict found checked done in
      connect_block-true codec checked chain after
        (ap (λ b. connect_block codec b chain) (sym same) ∙ connected)

  -- When `apply_block` says yes, the block was acceptable behind the block of the tip: its hash, its
  -- work, its size, its Merkle root, its time, its predecessor and its coinbase. The chain is the
  -- old one with that block on top: the transactions applied, the row stored, the tip and the
  -- height moved in memory and in the database. The stored block is read back equal in every field.
  pub apply_block-accepted :
      (now : ℕ) (block checked : Block) (chain after : Chain Raw)
      → ReadsBack codec
      → apply_block sha256 codec now block chain ≡ ok (true, checked, after)
      → (prev : Option Block) × (tip_block codec chain ≡ ok prev)
        × IsAcceptable sha256 codec now block prev checked
        × Extends codec chain checked after
        × (get_block codec after checked.block_hash ≡ ok (some checked))
  apply_block-accepted now block checked chain after reads h =
      let (prev, (verdict, found), e, f, done) = apply_block-parts now block chain h in
      let (good, same, connected) = concluded codec chain after verdict found checked done in
      let sound : validate_block sha256 codec now block prev ≡ ok (valid, checked) =
        f ∙ ap₂ (λ v b. ok (v, b)) good same in
      let placed = apply_block-Extends now block checked chain after h in
      (
        prev,
        e,
        (validate_block_iff sha256 codec now block prev checked).0 sound,
        placed,
        get_block-Extends codec chain after checked reads placed,
      )

  -- When `apply_block` says no, the stored blocks, the saved tip, the tip and the height are as
  -- they were.
  pub apply_block-refused :
      (now : ℕ) (block checked : Block) (chain after : Chain Raw)
      → apply_block sha256 codec now block chain ≡ ok (false, checked, after)
      → Untouched codec chain after
  apply_block-refused now block checked chain after h =
      let (prev, validated, e, f, done) = apply_block-parts now block chain h in
      refused codec chain after validated.0 validated.1 checked done

  -- Whatever the answer, the set of unspent outputs is what the block's transactions made of it, or
  -- what it was.
  pub apply_block-utxos :
      (now : ℕ) (block checked : Block) (answer : Bool) (chain after : Chain Raw)
      → apply_block sha256 codec now block chain ≡ ok (answer, checked, after)
      → UtxosFrom codec chain checked after
  apply_block-utxos now block checked answer chain after h =
      let (prev, validated, e, f, done) = apply_block-parts now block chain h in
      subst (λ out. UtxosFrom codec chain out.1 out.2) done
        (conclude-utxos codec chain validated.0 validated.1)
