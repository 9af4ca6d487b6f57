-- ===== src/Tx/Merkle/Rounds.antt =====
-- The rounds of the Merkle loop: the length of each level, and the end of the loop.
use bitchchain.Base.{
  ℕ, zero, suc, ◌+◌, ◌/◌, ◌%◌, ◌≤◌, ◌<◌, ◌≡◌, refl, sym, ap, ◌∙◌, inl, inr, List, [], ◌∷◌, ◌++◌,
  reverse, length, Bytes, ok, arith, ltb, ◌==◌, ==_iff, false, length-append, hex, lt→ltb, traverse,
  ◌>>=◌, >>=-eq-ok,
}
use mathlib.Core.Path.{subst}
use native.Mathlib.Nat.{eq-or-lt_of_le, mod-lt}
use native.Mathlib.Decide.{dec_le}
use bitchchain.Tx.{Transaction, sha256d}
use bitchchain.Tx.Merkle.{
  last, hash_pairs, merkle_level, merkle_loop, merkle_fold, compute_merkle_root, txid_bytes,
}

module _ (sha256 : Bytes → Bytes) where
  length-hash_pairs : (xs : List Bytes) → length (hash_pairs sha256 xs) ≡ length xs / 2
  unfolding hash_pairs
  length-hash_pairs [] = refl
  length-hash_pairs (x ∷ []) = refl
  length-hash_pairs (x ∷ y ∷ xs) = omega (arith, length-hash_pairs xs)

  pub merkle_level-odd :
      (x : Bytes) (xs : List Bytes)
      → length (x ∷ xs) % 2 ≡ 1
      → merkle_level sha256 (x ∷ xs) ≡ hash_pairs sha256 ((x ∷ xs) ++ last x xs ∷ [])
  unfolding merkle_level
  merkle_level-odd x xs odd = rw ((==_iff (length (x ∷ xs) % 2) 1).1 odd)

  pub merkle_level-even :
      (x : Bytes) (xs : List Bytes)
      → length (x ∷ xs) % 2 ≡ 0
      → merkle_level sha256 (x ∷ xs) ≡ hash_pairs sha256 (x ∷ xs)
  unfolding merkle_level
  merkle_level-even x xs even =
      let test : (length (x ∷ xs) % 2 == 1) ≡ false = ground arith in rw test

  -- A round halves the length, rounded up.
  pub length-merkle_level :
      (xs : List Bytes) → length (merkle_level sha256 xs) ≡ (length xs + 1) / 2
  unfolding merkle_level
  length-merkle_level [] = refl
  length-merkle_level (x ∷ xs) =
      elim (eq-or-lt_of_le (mod-lt (length (x ∷ xs)) {m = 2} (omega arith))) [
        | inl odd ↦ omega (
          arith,
          ap length (merkle_level-odd x xs (omega (arith, odd))),
          length-hash_pairs ((x ∷ xs) ++ last x xs ∷ []),
          length-append (x ∷ xs) (last x xs ∷ []),
        )
        | inr even ↦ omega (
          arith,
          ap length (merkle_level-even x xs (omega (arith, even))),
          length-hash_pairs (x ∷ xs),
        )
      ]

  -- One round of the loop, where the test holds; the loop stops where it does not.
  pub merkle_loop-step :
      (fuel : ℕ) (xs : List Bytes)
      → 1 < length xs
      → merkle_loop sha256 (suc fuel) xs ≡ merkle_loop sha256 fuel (merkle_level sha256 xs)
  unfolding merkle_loop
  merkle_loop-step fuel xs h = rw (lt→ltb 1 (length xs) h)

  merkle_loop-stop : (fuel : ℕ) (xs : List Bytes) → length xs ≤ 1 → merkle_loop sha256 fuel xs ≡ xs
  unfolding merkle_loop
  merkle_loop-stop zero xs h = refl
  merkle_loop-stop (suc fuel) xs h = let test : ltb 1 (length xs) ≡ false = ground arith in rw test

  merkle_loop-suc_long :
      (fuel : ℕ) (xs : List Bytes)
      → length xs ≤ suc fuel
      → 1 < length xs
      → merkle_loop sha256 (suc fuel) xs ≡ merkle_loop sha256 fuel xs
  merkle_loop-suc_long zero xs h long = absurd (omega arith)
  merkle_loop-suc_long (suc fuel) xs h long =
      let shorter = length-merkle_level xs in
      let next = merkle_level sha256 xs in
      merkle_loop-step (suc fuel) xs long
      ∙ elim (dec_le (length next) 1) [
        | yes short ↦
            merkle_loop-stop (suc fuel) next short ∙ sym (merkle_loop-stop fuel next short)
        | no still ↦ merkle_loop-suc_long fuel next (omega arith) (omega arith)
      ]
      ∙ sym (merkle_loop-step fuel xs long)

  -- With fuel to spare one more unit changes nothing.
  pub merkle_loop-suc :
      (fuel : ℕ) (xs : List Bytes)
      → length xs ≤ suc fuel
      → merkle_loop sha256 (suc fuel) xs ≡ merkle_loop sha256 fuel xs
  merkle_loop-suc fuel xs h = elim (dec_le (length xs) 1) [
    | yes short ↦ merkle_loop-stop (suc fuel) xs short ∙ sym (merkle_loop-stop fuel xs short)
    | no long ↦ merkle_loop-suc_long fuel xs h (omega arith)
  ]

  length-traverse :
      (txs : List Transaction) (ids : List Bytes)
      → traverse (txid_bytes sha256) txs ≡ ok ids
      → length ids ≡ length txs
  length-traverse [] ids h = ground arith
  length-traverse (tx ∷ txs) ids h =
      let (y, _, rest) =
        >>=-eq-ok (txid_bytes sha256 tx)
          (λ y. traverse (txid_bytes sha256) txs >>= λ ys. ok (y ∷ ys)) h in
      let (ys, each, whole) =
        >>=-eq-ok (traverse (txid_bytes sha256) txs) (λ ys. ok (y ∷ ys)) rest in
      ground (arith, length-traverse txs ys each)

  -- The level above one level of a Merkle tree: the hashes of the neighbours, the last entry of an odd
  -- level being its own neighbour.
  pub data Level : List Bytes → List Bytes → Type 0 where
    end : Level [] []
    alone : (x : Bytes) → Level (x ∷ []) (sha256d sha256 (x ++ x) ∷ [])
    pair :
        {xs hs : List Bytes} (x y : Bytes)
        → Level xs hs
        → Level (x ∷ y ∷ xs) (sha256d sha256 (x ++ y) ∷ hs)

  -- The root of the tree over its leaves.
  pub data IsRoot : List Bytes → Bytes → Type 0 where
    leaf : (x : Bytes) → IsRoot (x ∷ []) x
    above :
        {xs hs : List Bytes} {root : Bytes}
        → 1 < length xs
        → Level xs hs
        → IsRoot hs root
        → IsRoot xs root

  hash_pairs-even : (xs : List Bytes) → length xs % 2 ≡ 0 → Level xs (hash_pairs sha256 xs)
  unfolding hash_pairs
  hash_pairs-even [] even = end
  hash_pairs-even (x ∷ []) even = absurd (omega arith)
  hash_pairs-even (x ∷ y ∷ xs) even = pair x y (hash_pairs-even xs (omega arith))

  hash_pairs-odd :
      (x : Bytes) (xs : List Bytes)
      → length (x ∷ xs) % 2 ≡ 1
      → Level (x ∷ xs) (hash_pairs sha256 ((x ∷ xs) ++ last x xs ∷ []))
  unfolding hash_pairs last
  hash_pairs-odd x [] odd = alone x
  hash_pairs-odd x (y ∷ []) odd = absurd (omega arith)
  hash_pairs-odd x (y ∷ z ∷ xs) odd = pair x y (hash_pairs-odd z xs (omega arith))

  -- A round of the loop is a level of the tree.
  merkle_level-Level : (xs : List Bytes) → Level xs (merkle_level sha256 xs)
  unfolding merkle_level
  merkle_level-Level [] = end
  merkle_level-Level (x ∷ xs) =
      elim (eq-or-lt_of_le (mod-lt (length (x ∷ xs)) {m = 2} (omega arith))) [
        | inl odd ↦
            let one : length (x ∷ xs) % 2 ≡ 1 = omega (arith, odd) in
            subst (Level (x ∷ xs)) (sym (merkle_level-odd x xs one)) (hash_pairs-odd x xs one)
        | inr even ↦
            let nought : length (x ∷ xs) % 2 ≡ 0 = omega (arith, even) in
            subst (Level (x ∷ xs)) (sym (merkle_level-even x xs nought))
              (hash_pairs-even (x ∷ xs) nought)
      ]

  merkle_loop-short :
      (fuel : ℕ) (xs : List Bytes)
      → length xs ≡ 1
      → (x : Bytes) × (merkle_loop sha256 fuel xs ≡ x ∷ []) × IsRoot xs x
  merkle_loop-short fuel [] one = absurd (omega arith)
  merkle_loop-short fuel (x ∷ []) one = (x, merkle_loop-stop fuel (x ∷ []) (omega arith), leaf x)
  merkle_loop-short fuel (x ∷ y ∷ xs) one = absurd (omega arith)

  -- With this fuel the loop ends by its test, with the root alone.
  merkle_loop-IsRoot :
      (fuel : ℕ) (xs : List Bytes)
      → length xs ≤ suc fuel
      → 0 < length xs
      → (root : Bytes) × (merkle_loop sha256 fuel xs ≡ root ∷ []) × IsRoot xs root
  merkle_loop-IsRoot zero xs h more = merkle_loop-short zero xs (omega arith)
  merkle_loop-IsRoot (suc fuel) xs h more = elim (dec_le (length xs) 1) [
    | yes short ↦ merkle_loop-short (suc fuel) xs (omega arith)
    | no long ↦
        let (root, ends, tree) =
          merkle_loop-IsRoot fuel (merkle_level sha256 xs) (omega (arith, length-merkle_level xs))
            (omega (arith, length-merkle_level xs)) in
        (
          root,
          merkle_loop-step fuel xs (omega arith) ∙ ends,
          above (omega arith) (merkle_level-Level xs) tree,
        )
  ]

  -- A block with transactions whose ids are hexadecimal has a Merkle root: the text of the root of the
  -- tree over its ids, whose levels hash neighbours together, the last of an odd level with itself,
  -- until one hash is left.
  pub compute_merkle_root-IsRoot :
      (tx : Transaction) (txs : List Transaction) (ids : List Bytes)
      → traverse (txid_bytes sha256) (tx ∷ txs) ≡ ok ids
      → (root : Bytes) × IsRoot ids root
        × (compute_merkle_root sha256 (tx ∷ txs) ≡ ok (hex (reverse root)))
  unfolding compute_merkle_root merkle_fold
  compute_merkle_root-IsRoot tx txs ids h =
      let (root, ends, tree) =
        merkle_loop-IsRoot (length ids) ids (omega arith)
          (omega (arith, length-traverse (tx ∷ txs) ids h)) in
      (root, tree, rw (h, ends) refl)
