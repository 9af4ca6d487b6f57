-- ===== src/Tx/Merkle.antt =====
-- `Block.compute_merkle_root` (agent/modules/blockchain_core.py, lines 140 to 148).
pub mod Rounds
pub mod Duplicates
use bitchchain.Base.{
  ℕ, zero, suc, ◌/◌, ◌%◌, ◌≡◌, refl, List, [], ◌∷◌, ◌++◌, reverse, length, Text, Bytes, hex,
  from_hex, Result, ok, err, ◌>>=◌, traverse, arith, ltb, ◌==◌, if◌then◌else◌, replicate,
  value_error,
}
use bitchchain.Tx.{Transaction, sha256d}

-- `txids[-1]` of a list that is not empty, given by its head and its tail.
unfoldable pub last {ℓ} : {A : Type ℓ} → A → List A → A
last x [] = x
last x (y ∷ ys) = last y ys

module _ (sha256 : Bytes → Bytes) where
  -- `[sha256d(txids[i] + txids[i + 1]) for i in range(0, len(txids), 2)]` of an even list.
  unfoldable pub hash_pairs : List Bytes → List Bytes
  hash_pairs [] = []
  hash_pairs (x ∷ []) = []
  hash_pairs (x ∷ y ∷ xs) = sha256d sha256 (x ++ y) ∷ hash_pairs xs

  -- One round of the loop: an odd list repeats its last entry first.
  unfoldable pub merkle_level : List Bytes → List Bytes
  merkle_level [] = []
  merkle_level (x ∷ xs) =
      if length (x ∷ xs) % 2 == 1
      then hash_pairs ((x ∷ xs) ++ last x xs ∷ [])
      else hash_pairs (x ∷ xs)

  -- `while len(txids) > 1`, with fuel.
  unfoldable pub merkle_loop : ℕ → List Bytes → List Bytes
  merkle_loop zero xs = xs
  merkle_loop (suc fuel) xs =
      let rest = merkle_loop fuel (merkle_level xs) in if ltb 1 (length xs) then rest else xs

  -- The number of entries is fuel enough, since each round keeps at most half of them, rounded up.
  unfoldable pub merkle_fold : List Bytes → List Bytes
  merkle_fold xs = merkle_loop (length xs) xs

  -- `txids[0][::-1].hex()`
  abbrev pub root_text : List Bytes → Result Text
  root_text [] = err value_error
  root_text (x ∷ xs) = ok (hex (reverse x))

  abbrev pub txid_bytes : Transaction → Result Bytes
  txid_bytes tx = from_hex tx.txid >>= λ bs. ok (reverse bs)

  unfoldable pub compute_merkle_root : List Transaction → Result Text
  compute_merkle_root [] = ok (replicate 64 b'0')
  compute_merkle_root (tx ∷ txs) =
      traverse txid_bytes (tx ∷ txs) >>= λ txids. root_text (merkle_fold txids)
