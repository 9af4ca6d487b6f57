-- ===== src/Wallet.antt =====
-- Keys and addresses (agent/modules/wallet.py). SHA-256 and RIPEMD-160 are parameters. Of the tables
-- only `keys` is used; its row ids and times are left out.
pub mod Addresses
pub mod Keys
use bitchchain.Base.{
  ℕ, zero, suc, ◌+◌, ◌-◌, ◌*◌, ◌/◌, ◌%◌, ◌^◌, Bool, true, false, not, ◌&&◌, ◌||◌, Option, none,
  some, List, [], ◌∷◌, ◌++◌, Text, Bytes, text, text_beq, ltb, leb, ◌==◌, if◌then◌else◌, take, drop,
  length, Result, ok, err, ◌>>=◌, ◌>>◌, guard, hex, from_be, value_error, overflow_error,
}
use bitchchain.Base.BigEndian.{to_be, be_bytes}
use bitchchain.Base.Strings.Numerals.{hex_text, parse_hex}
use bitchchain.Tx.{sha256d}
use bitchchain.Curve.{group_order, Point, point_to_bytes}
use bitchchain.Signature.{Pair, ecdsa_sign, sign_data, verify_data, public_key_of}

abbrev pub alphabet : Text
alphabet = text "123456789ABCDEFGHJKLMNPQRSTUVWXYZabcdefghijkmnopqrstuvwxyz"

-- `alphabet[r]`; the remainders stay below 58.
pub symbol_at : ℕ → Text → ℕ
symbol_at r [] = 0
symbol_at zero (c ∷ s) = c
symbol_at (suc r) (c ∷ s) = symbol_at r s

-- `alphabet.index(char)`
pub index_of : ℕ → Text → Result ℕ
index_of char [] = err value_error
index_of char (c ∷ s) =
    let later = index_of char s >>= λ i. ok (suc i) in if c == char then ok 0 else later

-- The loop of `divmod(n, 58)`: the symbols in front of a text.
unfoldable pub base58_digits : ℕ → ℕ → Text → Text
unfolding symbol_at
base58_digits zero n result = result
base58_digits (suc rounds) n result =
    let rest = base58_digits rounds (n / 58) (symbol_at (n % 58) alphabet ∷ result) in
    if ltb 0 n then rest else result

-- A "1" for each leading zero byte.
unfoldable pub leading_ones : Bytes → Text → Text
leading_ones [] result = result
leading_ones (b ∷ bs) result =
    let rest = leading_ones bs (49 ∷ result) in if b == 0 then rest else result

-- `data.lstrip(b"\x00")`
unfoldable pub drop_nuls : Bytes → Bytes
drop_nuls [] = []
drop_nuls (b ∷ bs) = if b == 0 then drop_nuls bs else b ∷ bs

-- The loop over the characters of an address.
unfoldable pub base58_number : ℕ → Text → Result ℕ
unfolding index_of
base58_number n [] = ok n
base58_number n (c ∷ s) = index_of c alphabet >>= λ i. base58_number (n * 58 + i) s

-- `for length in range(…)`: the first width that holds the number.
unfoldable pub first_width : ℕ → ℕ → ℕ → Bytes → Bytes
first_width zero width n unchanged = unchanged
first_width (suc rounds) width n unchanged =
    let later = first_width rounds (suc width) n unchanged in
    if ltb n (256 ^ width) then be_bytes width n else later

abbrev pub starts_with_one : Text → Bool
starts_with_one [] = false
starts_with_one (c ∷ s) = c == 49

-- The bytes that an address's number stands for.
unfoldable pub address_bytes : Text → ℕ → Result Bytes
unfolding drop_nuls first_width
address_bytes address n = to_be 25 n >>= λ wide.
    let stripped = drop_nuls wide in
    let trimmed = if starts_with_one address then drop_nuls stripped else stripped in
    ok (if length trimmed == 25 then trimmed else first_width 10 20 n trimmed)

module _ (sha256 : Bytes → Bytes) where
  abbrev pub double_checksum : Bytes → Bytes
  double_checksum payload = take 4 (sha256d sha256 payload)

  unfoldable pub base58check_encode : Bytes → Text
  unfolding leading_ones
  base58check_encode payload =
      let bytes = payload ++ double_checksum payload in
      let n = from_be 0 bytes in leading_ones bytes (base58_digits n n [])

  -- The comparison of the checksum.
  unfoldable pub open_payload : Bytes → Result Bytes
  open_payload bytes =
      let payload = take (length bytes - 4) bytes in
      if text_beq (drop (length bytes - 4) bytes) (double_checksum payload)
      then ok (drop 1 payload)
      else err value_error

  unfoldable pub address_to_hash160 : Text → Result Bytes
  address_to_hash160 address =
      base58_number 0 address >>= λ n. address_bytes address n >>= λ bytes. open_payload bytes

abbrev pub p2pkh_prefix : ℕ
p2pkh_prefix = 0

abbrev pub p2sh_prefix : ℕ
p2sh_prefix = 5

abbrev pub testnet_prefix : ℕ
testnet_prefix = 0x6f

pub record KeyPair : Type 0 where
  pub private_key : ℕ
  pub public_key : ℕ × ℕ
  pub compressed_public_key : Text
  pub address : Text

-- `if s.startswith("0x"): s = s[2:]`
abbrev pub strip_prefix : Text → Text
strip_prefix s = if text_beq (take 2 s) (text "0x") then drop 2 s else s

-- A row of `keys`.
pub record KeyRow : Type 0 where
  pub private_key_hex : Text
  pub public_key_hex : Text
  pub address : Text
  pub label : Text

abbrev pub Keys : Type 0
Keys = List KeyRow

abbrev pub row_of : KeyPair → Text → KeyRow
row_of kp label = record {
  private_key_hex = hex_text kp.private_key;
  public_key_hex = kp.compressed_public_key;
  address = kp.address;
  label = label;
}

-- Some row has the same private key or the same address.
unfoldable pub clashes : KeyRow → Keys → Bool
clashes row [] = false
clashes row (r ∷ rows) =
    let later = clashes row rows in
    if text_beq r.private_key_hex row.private_key_hex || text_beq r.address row.address
    then true
    else later

-- INSERT OR IGNORE
unfoldable pub insert_key : KeyRow → Keys → Keys
unfolding clashes
insert_key row rows = if clashes row rows then rows else rows ++ row ∷ []

unfoldable pub find_key : Text → Keys → Option KeyRow
find_key address [] = none
find_key address (r ∷ rows) =
    let later = find_key address rows in if text_beq r.address address then some r else later

unfoldable pub list_addresses : Keys → List (Text × Text × Text)
list_addresses [] = []
list_addresses (r ∷ rows) = (r.address, r.public_key_hex, r.label) ∷ list_addresses rows

module _ (sha256 ripemd160 : Bytes → Bytes) where
  abbrev pub hash160 : Bytes → Bytes
  hash160 bytes = ripemd160 (sha256 bytes)

  unfoldable pub pubkey_to_address : ℕ × ℕ → ℕ → Result Text
  pubkey_to_address public_key prefix = point_to_bytes (some public_key) >>= λ compressed.
      ok (base58check_encode sha256 (prefix ∷ hash160 compressed))

  unfoldable pub from_private_key : ℕ → Result KeyPair
  from_private_key private_key =
      guard (leb 1 private_key && ltb private_key group_order) value_error
      >> public_key_of private_key
      >>= λ public_key. point_to_bytes (some public_key) >>= λ compressed.
          pubkey_to_address public_key p2pkh_prefix >>= λ address. ok (record {
            private_key = private_key;
            public_key = public_key;
            compressed_public_key = hex compressed;
            address = address;
          })

  unfoldable pub store_key : ℕ → Text → Keys → Result (KeyPair × Keys)
  unfolding insert_key
  store_key private_key label rows =
      from_private_key private_key >>= λ kp. ok (kp, insert_key (row_of kp label) rows)

  -- `generate_key`, with the number that was drawn.
  unfoldable pub generate_key : ℕ → Text → Keys → Result (KeyPair × Keys)
  generate_key drawn label rows =
      let k = drawn % group_order in store_key (if k == 0 then 1 else k) label rows

  unfoldable pub import_key : Text → Text → Keys → Result (KeyPair × Keys)
  import_key private_key_hex label rows =
      parse_hex (strip_prefix private_key_hex) >>= λ private_key. store_key private_key label rows

  abbrev pub open_row : Option KeyRow → Result (Option KeyPair)
  open_row none = ok none
  open_row (some r) = parse_hex r.private_key_hex >>= λ k. from_private_key k >>= λ kp. ok (some kp)

  unfoldable pub get_key : Text → Keys → Result (Option KeyPair)
  unfolding find_key
  get_key address rows = open_row (find_key address rows)

  abbrev sign_found :
      (Bytes → Bytes → Bytes) → ℕ → Bytes → Option KeyPair → Result (Option (Option Text))
  sign_found hmac rounds tx_bytes none = ok (some none)
  sign_found hmac rounds tx_bytes (some kp) =
      sign_data sha256 hmac rounds kp.private_key tx_bytes >>= λ signed. elim signed [
        | none ↦ ok none
        | some t ↦ ok (some (some t))
      ]

  -- `sign_transaction`: `none` where the rounds of the nonce are used up, and within it the source's
  -- answer.
  unfoldable pub sign_transaction :
      (Bytes → Bytes → Bytes) → ℕ → Text → Bytes → Keys → Result (Option (Option Text))
  unfolding get_key
  sign_transaction hmac rounds address tx_bytes rows =
      get_key address rows >>= λ found. sign_found hmac rounds tx_bytes found

  unfoldable pub verify_signature : ℕ × ℕ → Bytes → Text → Result Bool
  verify_signature public_key bytes sig_hex = verify_data sha256 (some public_key) bytes sig_hex
