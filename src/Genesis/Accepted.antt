-- ===== src/Genesis/Accepted.antt =====
-- What the chain says to the genesis block (`create_genesis_block` and `validate_block`,
-- agent/modules/blockchain_core.py, lines 425 and 308).
use bitchchain.Base.{
  ℕ, ◌+◌, ◌-◌, ◌^◌, ◌≤◌, ◌≡◌, ◌≢◌, refl, sym, ap, ◌∙◌, Option, none, some, [], ◌∷◌, Bytes, ok,
  ◌>>=◌, >>=-eq-ok,
}
use mathlib.Core.Path.{subst}
use bitchchain.Json.{Codec}
use bitchchain.Pow.{bits_to_target}
use bitchchain.Tx.{Block, compute_txid}
use bitchchain.Tx.Merkle.{compute_merkle_root}
use bitchchain.Chain.{valid, fill_txid, measured_size, max_block_size_bytes, validate_block}
use bitchchain.Chain.Accept.{validate_block_iff, BeginsWithCoinbase}
use bitchchain.Mining.{with_nonce, search_nonce}
use bitchchain.Mining.Search.{IsHit, search_nonce_sound, hit-meets_target, unchanged}
use bitchchain.Mining.Accepted.{
  finished, IsAssembled, assembled-IsAcceptable, assembled-BeginsWithCoinbase,
}
use bitchchain.Genesis.{genesis_coinbase, genesis_header, genesis_template, create_genesis_block}

module _ (sha256 : Bytes → Bytes) where
  genesis_template-IsAssembled :
      (genesis : Block)
      → genesis_template sha256 ≡ ok genesis
      → IsAssembled sha256 genesis_header (genesis_coinbase ∷ []) genesis
        × (genesis.header.bits ≡ 0x207fffff)
        × (genesis.block_hash ≡ [])
  unfolding genesis_template fill_txid
  genesis_template-IsAssembled genesis h =
      let (txid, computed, later) =
        >>=-eq-ok (compute_txid sha256 genesis_coinbase)
          (λ txid.
            let coinbase = record genesis_coinbase { txid = txid } in
            compute_merkle_root sha256 (coinbase ∷ []) >>= λ root.
            ok (finished sha256 genesis_header (coinbase ∷ []) root))
          h in
      let coinbase = record genesis_coinbase { txid = txid } in
      let (root, rooted, done) =
        >>=-eq-ok (compute_merkle_root sha256 (coinbase ∷ []))
          (λ root. ok (finished sha256 genesis_header (coinbase ∷ []) root)) later in
      let same : finished sha256 genesis_header (coinbase ∷ []) root ≡ genesis = cc done in
      subst
        (λ g.
          IsAssembled sha256 genesis_header (genesis_coinbase ∷ []) g
          × (g.header.bits ≡ 0x207fffff)
          × (g.block_hash ≡ []))
        same (record { named = rw computed refl; rooted = rooted }, refl, refl)

  -- The genesis block, where its search has found a nonce.
  found_genesis :
      (genesis block : Block) (found : Option Block)
      → genesis.block_hash ≡ []
      → block.block_hash ≢ []
      → elim found [ none ↦ ok (with_nonce sha256 genesis (2 ^ 32 - 1)) | some b ↦ ok b ] ≡ ok block
      → found ≡ some block
  found_genesis genesis block none empty named h =
      let same : with_nonce sha256 genesis (2 ^ 32 - 1) ≡ block = cc h in
      absurd (named (ap (λ b. b.block_hash) (sym same) ∙ empty))
  found_genesis genesis block (some b) empty named h = ap some (cc h)

  -- The genesis block is valid on an empty chain once its search has found a nonce, which gives the
  -- block a hash, if the block keeps to the size limit and its time is at most two hours ahead.
  pub create_genesis_block-valid :
      (codec : Codec) (now : ℕ) (block : Block)
      → create_genesis_block sha256 ≡ ok block
      → block.block_hash ≢ []
      → block.header.timestamp ≤ now + 7200
      → measured_size codec block.transactions ≤ max_block_size_bytes
      → validate_block sha256 codec now block none
        ≡ ok (valid, record block { size_bytes = measured_size codec block.transactions })
  unfolding create_genesis_block
  create_genesis_block-valid codec now block h named in_time small =
      let (genesis, built, later) =
        >>=-eq-ok (genesis_template sha256)
          (λ genesis.
            search_nonce sha256 (λ nonce block. block) (bits_to_target 0x207fffff) (2 ^ 32) 0
              genesis
            >>= λ found. elim found [
              | none ↦ ok (with_nonce sha256 genesis (2 ^ 32 - 1))
              | some b ↦ ok b
            ])
          h in
      let (found, searched, done) =
        >>=-eq-ok
          (search_nonce sha256 (λ nonce block. block) (bits_to_target 0x207fffff) (2 ^ 32) 0
            genesis)
          (λ found. elim found [
            | none ↦ ok (with_nonce sha256 genesis (2 ^ 32 - 1))
            | some b ↦ ok b
          ])
          later in
      let (a, bits, empty) = genesis_template-IsAssembled genesis built in
      let found_block = searched ∙ ap ok (found_genesis genesis block found empty named done) in
      let (hit, m) =
        search_nonce_sound sha256 (λ nonce block. block) (bits_to_target 0x207fffff)
          (unchanged sha256) (2 ^ 32) 0 genesis block found_block in
      let aimed = subst (λ b. IsHit sha256 (bits_to_target b) block) (sym bits) hit in
      let rewarded =
        assembled-BeginsWithCoinbase sha256 codec genesis_coinbase genesis_header [] genesis refl
          a in
      (validate_block_iff sha256 codec now block none
          (record block { size_bytes = measured_size codec block.transactions })).1
        (assembled-IsAcceptable sha256 codec now genesis_header (genesis_coinbase ∷ []) genesis
          block none a m hit.hashed (hit-meets_target sha256 genesis block aimed m)
          (subst BeginsWithCoinbase (sym m.transactions) rewarded) tt in_time small)
