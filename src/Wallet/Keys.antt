-- ===== src/Wallet/Keys.antt =====
-- The stored keys (`Wallet`, agent/modules/wallet.py, lines 150 to 235).
use bitchchain.Base.{
  ℕ, ◌≡◌, refl, ap, ◌∙◌, false, some, [], ◌∷◌, ◌++◌, Text, Bytes, text_beq_iff, arith, ok,
  >>=-eq-ok,
}
use bitchchain.Base.Strings.Numerals.{parse_hex, parse_hex-hex_text}
use bitchchain.Wallet.{
  KeyPair, KeyRow, Keys, row_of, clashes, insert_key, find_key, from_private_key, store_key,
  import_key, get_key, strip_prefix,
}

-- A row that clashes with none is found at the end.
find_key-append :
    (row : KeyRow) (rows : Keys)
    → clashes row rows ≡ false
    → find_key row.address (rows ++ row ∷ []) ≡ some row
unfolding clashes find_key
find_key-append row [] h = rw ((text_beq_iff row.address row.address).1 refl) refl
find_key-append row (r ∷ rows) h = ground (arith, find_key-append row rows)

module _ (sha256 ripemd160 : Bytes → Bytes) where
  private_of :
      (k : ℕ) (kp : KeyPair) → from_private_key sha256 ripemd160 k ≡ ok kp → kp.private_key ≡ k
  unfolding from_private_key
  private_of k kp h = ground arith

  stored :
      (k : ℕ) (label : Text) (rows saved : Keys) (kp : KeyPair)
      → store_key sha256 ripemd160 k label rows ≡ ok (kp, saved)
      → (from_private_key sha256 ripemd160 k ≡ ok kp) × (saved ≡ insert_key (row_of kp label) rows)
  unfolding store_key
  stored k label rows saved kp h =
      let (made, at, returned) =
        >>=-eq-ok (from_private_key sha256 ripemd160 k)
          (λ kp. ok (kp, insert_key (row_of kp label) rows)) h in
      let same : made ≡ kp = cc returned in (at ∙ ap ok same, cc (returned, same))

  -- A stored key pair is read back by its address, where its row clashed with none.
  pub get_key-store_key :
      (k : ℕ) (label : Text) (rows saved : Keys) (kp : KeyPair)
      → clashes (row_of kp label) rows ≡ false
      → store_key sha256 ripemd160 k label rows ≡ ok (kp, saved)
      → get_key sha256 ripemd160 kp.address saved ≡ ok (some kp)
  unfolding insert_key get_key
  get_key-store_key k label rows saved kp fresh h =
      let (at, grown) = stored k label rows saved kp h in
      let reopened : from_private_key sha256 ripemd160 kp.private_key ≡ ok kp =
        ap (from_private_key sha256 ripemd160) (private_of k kp at) ∙ at in
      rw
        (
          grown,
          fresh,
          find_key-append (row_of kp label) rows fresh,
          parse_hex-hex_text kp.private_key,
          reopened,
        )
        refl

  -- A key that was imported, and whose row clashed with none, is read back by its address.
  pub get_key-import_key :
      (private_key_hex label : Text) (rows saved : Keys) (kp : KeyPair)
      → clashes (row_of kp label) rows ≡ false
      → import_key sha256 ripemd160 private_key_hex label rows ≡ ok (kp, saved)
      → get_key sha256 ripemd160 kp.address saved ≡ ok (some kp)
  unfolding import_key
  get_key-import_key private_key_hex label rows saved kp fresh h =
      let (k, _, kept) =
        >>=-eq-ok (parse_hex (strip_prefix private_key_hex))
          (λ private_key. store_key sha256 ripemd160 private_key label rows) h in
      get_key-store_key k label rows saved kp fresh kept
