-- ===== src/Tx/Merkle/Duplicates.antt =====
-- The Merkle root of a list whose last entry is repeated (`Block.compute_merkle_root`).
use bitchchain.Base.{
  suc, ◌%◌, ◌<◌, ◌≡◌, refl, sym, ap, ◌∙◌, List, [], ◌∷◌, ◌++◌, length, Bytes, ok, arith,
  length-append, traverse, traverse-cons, traverse-of_parts, ◌>>=◌,
}
use mathlib.Core.Path.{subst}
use bitchchain.Tx.{Transaction}
use bitchchain.Tx.Merkle.{
  last, merkle_level, merkle_loop, merkle_fold, compute_merkle_root, txid_bytes, root_text,
}
use bitchchain.Tx.Merkle.Rounds.{
  merkle_loop-suc, merkle_loop-step, merkle_level-odd, merkle_level-even, length-merkle_level,
}

module _ (sha256 : Bytes → Bytes) where
  -- One round of the odd list does the repetition itself.
  merkle_level-repeat :
      (x : Bytes) (xs : List Bytes)
      → length (x ∷ xs) % 2 ≡ 1
      → merkle_level sha256 ((x ∷ xs) ++ last x xs ∷ []) ≡ merkle_level sha256 (x ∷ xs)
  merkle_level-repeat x xs odd =
      merkle_level-even sha256 x (xs ++ last x xs ∷ [])
        (omega (arith, length-append (x ∷ xs) (last x xs ∷ [])))
      ∙ sym (merkle_level-odd sha256 x xs odd)

  pub merkle_fold-repeat :
      (x : Bytes) (xs : List Bytes)
      → length (x ∷ xs) % 2 ≡ 1
      → 1 < length (x ∷ xs)
      → merkle_fold sha256 ((x ∷ xs) ++ last x xs ∷ []) ≡ merkle_fold sha256 (x ∷ xs)
  unfolding merkle_fold
  merkle_fold-repeat x xs odd many =
      let longer = length-append (x ∷ xs) (last x xs ∷ []) in
      let fuel : length ((x ∷ xs) ++ last x xs ∷ []) ≡ suc (length (x ∷ xs)) = omega arith in
      let shorter = length-merkle_level sha256 (x ∷ xs) in
      ap (λ f. merkle_loop sha256 f ((x ∷ xs) ++ last x xs ∷ [])) fuel
      ∙ merkle_loop-step sha256 (length (x ∷ xs)) ((x ∷ xs) ++ last x xs ∷ []) (omega arith)
      ∙ ap (merkle_loop sha256 (length (x ∷ xs))) (merkle_level-repeat x xs odd)
      ∙ merkle_loop-suc sha256 (length xs) (merkle_level sha256 (x ∷ xs)) (omega arith)
      ∙ sym (merkle_loop-step sha256 (length xs) (x ∷ xs) many)

  length-ids :
      (txs : List Transaction) (ids : List Bytes)
      → traverse (txid_bytes sha256) txs ≡ ok ids
      → length ids ≡ length txs
  length-ids [] ids h = ground arith
  length-ids (tx ∷ txs) ids h =
      let (y, ys, first, others, whole) = traverse-cons (txid_bytes sha256) tx txs h in
      omega (arith, ap length whole, length-ids txs ys others)

  ids-repeat :
      (tx : Transaction) (txs : List Transaction) (id : Bytes) (ids : List Bytes)
      → txid_bytes sha256 tx ≡ ok id
      → traverse (txid_bytes sha256) txs ≡ ok ids
      → traverse (txid_bytes sha256) (txs ++ last tx txs ∷ []) ≡ ok (ids ++ last id ids ∷ [])
  unfolding last
  ids-repeat tx [] id ids first rest =
      let none_left : [] ≡ ids = cc rest in
      subst (λ is. traverse (txid_bytes sha256) (tx ∷ []) ≡ ok (is ++ last id is ∷ [])) none_left
        (traverse-of_parts (txid_bytes sha256) tx [] first refl)
  ids-repeat tx (u ∷ txs) id ids first rest =
      let (y, ys, second, others, whole) = traverse-cons (txid_bytes sha256) u txs rest in
      subst
        (λ is.
          traverse (txid_bytes sha256) ((u ∷ txs) ++ last u txs ∷ []) ≡ ok (is ++ last id is ∷ []))
        whole
        (traverse-of_parts (txid_bytes sha256) u (txs ++ last u txs ∷ []) second
          (ids-repeat u txs y ys second others))

  root_of_ids :
      (tx : Transaction) (txs : List Transaction) (ids : List Bytes)
      → traverse (txid_bytes sha256) (tx ∷ txs) ≡ ok ids
      → compute_merkle_root sha256 (tx ∷ txs) ≡ root_text sha256 (merkle_fold sha256 ids)
  unfolding compute_merkle_root
  root_of_ids tx txs ids h = ap (λ r. r >>= λ txids. root_text sha256 (merkle_fold sha256 txids)) h

  -- A block of an odd number of transactions, at least three, with hexadecimal ids has the Merkle
  -- root of the block that repeats its last transaction.
  pub compute_merkle_root-repeat :
      (tx : Transaction) (txs : List Transaction) (ids : List Bytes)
      → length (tx ∷ txs) % 2 ≡ 1
      → 1 < length (tx ∷ txs)
      → traverse (txid_bytes sha256) (tx ∷ txs) ≡ ok ids
      → compute_merkle_root sha256 ((tx ∷ txs) ++ last tx txs ∷ [])
        ≡ compute_merkle_root sha256 (tx ∷ txs)
  compute_merkle_root-repeat tx txs ids odd many h =
      let (y, ys, first, others, whole) = traverse-cons (txid_bytes sha256) tx txs h in
      let same = length-ids txs ys others in
      root_of_ids tx (txs ++ last tx txs ∷ []) (y ∷ (ys ++ last y ys ∷ [])) (
        traverse-of_parts (txid_bytes sha256) tx (txs ++ last tx txs ∷ []) first
          (ids-repeat tx txs y ys first others))
      ∙ ap (root_text sha256) (merkle_fold-repeat y ys (omega arith) (omega arith))
      ∙ sym
          (root_of_ids tx txs (y ∷ ys) (traverse-of_parts (txid_bytes sha256) tx txs first others))
