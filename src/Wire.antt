-- ===== src/Wire.antt =====
-- Message framing and inventory payloads of the peer-to-peer protocol
-- (agent/modules/network_node.py). A message is a text of bytes; `sha256` is a parameter.
pub mod Fields
pub mod Framing
pub mod Chunks
pub mod Inventory
use bitchchain.Base.{
  ℕ, zero, suc, ◌+◌, ◌-◌, ◌*◌, ◌^◌, Bool, true, false, not, Option, none, some, List, [], ◌∷◌, ◌++◌,
  map, reverse, Text, Bytes, text_beq, text_eq, ltb, leb, ◌==◌, if◌then◌else◌, length, take, drop,
  replicate, Result, ok, err, ◌>>=◌, ◌>>◌, guard, traverse, hex, from_hex, le_bytes, from_le, pack,
  value_error, Eq,
}
use bitchchain.Tx.{sha256d}

abbrev pub network_magic : Bytes
network_magic = 188 ∷ 193 ∷ 66 ∷ 33 ∷ []

abbrev pub max_peers : ℕ
max_peers = 8

abbrev pub message_max_size : ℕ
message_max_size = 33_554_432

-- `data[i:j]`
abbrev pub slice : ℕ → ℕ → Bytes → Bytes
slice i j bytes = take (j - i) (drop i bytes)

-- `command.encode("ascii")`
abbrev ascii_code : ℕ → Result ℕ
ascii_code c = if ltb c 128 then ok c else err value_error

unfoldable pub encode_ascii : Text → Result Bytes
encode_ascii command = traverse ascii_code command

-- `data.decode("ascii", errors="replace")`
abbrev pub decode_ascii : Bytes → Text
decode_ascii bs = map (λ b. if ltb b 128 then b else 65_533) bs

-- `cmd.ljust(12, b"\x00")[:12]`
abbrev pub pad_command : Bytes → Bytes
pad_command cmd = take 12 (cmd ++ replicate (12 - length cmd) 0)

-- `data.rstrip(b"\x00")`
abbrev keep_byte : ℕ → Bytes → Bytes
keep_byte b [] = if b == 0 then [] else b ∷ []
keep_byte b (c ∷ cs) = b ∷ c ∷ cs

unfoldable pub strip_nuls : Bytes → Bytes
strip_nuls [] = []
strip_nuls (b ∷ bs) = keep_byte b (strip_nuls bs)

-- A message that `parse_message` has read: command, payload and the bytes consumed.
pub record Message : Type 0 where
  pub command : Text
  pub payload : Bytes
  pub consumed : ℕ

module _ (sha256 : Bytes → Bytes) where
  -- `_checksum`
  unfoldable pub checksum : Bytes → Bytes
  checksum payload = take 4 (sha256d sha256 payload)

  unfoldable pub build_message : Text → Bytes → Result Bytes
  build_message command payload = encode_ascii command >>= λ cmd.
      pack 4 (length payload) >>= λ size.
      ok (network_magic ++ (pad_command cmd ++ (size ++ (checksum payload ++ payload))))

  unfoldable pub parse_message : Bytes → Option Message
  parse_message bytes =
      let size = from_le (slice 16 20 bytes) in
      let payload = slice 24 (24 + size) bytes in
      if ltb (length bytes) 24
      then none
      else if not (text_beq (take 4 bytes) network_magic)
      then none
      else if ltb message_max_size size
      then none
      else if ltb (length bytes) (24 + size)
      then none
      else if not (text_beq (checksum payload) (slice 20 24 bytes))
      then none
      else some (record {
        command = decode_ascii (strip_nuls (slice 4 16 bytes));
        payload = payload;
        consumed = 24 + size;
      })

  -- The inner loop of `_peer_loop`: the messages that the buffer holds, and what is left of it.
  -- Every round consumes at least 24 bytes, so that the buffer's length bounds the rounds.
  unfoldable pub drain : ℕ → Bytes → List (Text × Bytes) × Bytes
  drain zero buffer = ([], buffer)
  drain (suc rounds) buffer = elim (parse_message buffer) [
    | none ↦ ([], buffer)
    | some m ↦
        let (messages, left) = drain rounds (drop m.consumed buffer) in
        ((m.command, m.payload) ∷ messages, left)
  ]

  abbrev pub read_messages : Bytes → List (Text × Bytes) × Bytes
  read_messages buffer = drain (length buffer) buffer

-- The entry of one hash in an inventory: its type and the bytes of the hash reversed.
abbrev pub inv_entry : ℕ → Text → Result Bytes
inv_entry inv_type h = pack 4 inv_type >>= λ t. from_hex h >>= λ bs. ok (t ++ reverse bs)

unfoldable pub inv_entries : ℕ → List Text → Result Bytes
inv_entries inv_type [] = ok []
inv_entries inv_type (h ∷ hs) =
    inv_entry inv_type h >>= λ entry. inv_entries inv_type hs >>= λ rest. ok (entry ++ rest)

unfoldable pub build_inv_payload : ℕ → List Text → Result Bytes
unfolding inv_entries
build_inv_payload inv_type hashes =
    guard (ltb (length hashes) 256) value_error >> inv_entries inv_type hashes >>= λ entries.
    ok (length hashes ∷ entries)

abbrev pub inv_tx : ℕ
inv_tx = 1

abbrev pub inv_block : ℕ
inv_block = 2

-- The loop of `_handle_inv` over the announced hashes, `count` at most: type and hash of each.
unfoldable pub read_inv_entries : ℕ → Bytes → List (ℕ × Text)
read_inv_entries zero bytes = []
read_inv_entries (suc count) bytes =
    let rest = read_inv_entries count (drop 36 bytes) in
    if ltb (length bytes) 36
    then []
    else (from_le (take 4 bytes), hex (reverse (slice 4 36 bytes))) ∷ rest

unfoldable pub read_inv_payload : Bytes → List (ℕ × Text)
read_inv_payload [] = []
read_inv_payload (count ∷ bytes) = read_inv_entries count bytes
