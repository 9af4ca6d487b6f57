-- ===== src/Node/Version.antt =====
-- The greeting of a peer (`build_version_payload` and `_send_version`, agent/modules/network_node.py,
-- lines 99 and 225).
use bitchchain.Base.{
  sym, length-append, List, ℕ, ◌-◌, ◌^◌, ◌≡◌, refl, ap, ◌∙◌, Bool, [], ◌∷◌, ◌++◌, Text, Bytes, text,
  ltb, if◌then◌else◌, length, take, replicate, ℤ, pos, negsuc, Result, ok, err, ◌>>=◌, >>=-eq-ok,
  struct_error, pack, le_bytes, from_le, arith,
}
use bitchchain.Tx.{pack_i64}
use bitchchain.Wire.{build_message}
use bitchchain.Node.{Event, sent, unpack_i32}

abbrev pub protocol_version : ℕ
protocol_version = 70015

abbrev pub user_agent : Text
user_agent = text "/Bitchchain:0.1.0/"

-- `struct.pack("<i", value)`: four bytes in two's complement.
unfoldable pub pack_i32 : ℤ → Result Bytes
pack_i32 (pos n) = if ltb n (2 ^ 31) then ok (le_bytes 4 n) else err struct_error
pack_i32 (negsuc n) = if ltb n (2 ^ 31) then ok (le_bytes 4 (2 ^ 32 - 1 - n)) else err struct_error

-- The fields of the payload, with no addresses and the relay flag.
abbrev pub greeting : Bytes → Bytes → Bytes → Bytes → Bytes → Bytes
greeting version services time nonce high =
    version
    ++ (services
        ++ (time
            ++ (replicate 52 0 ++ (nonce ++ (length user_agent ∷ user_agent ++ (high ++ 1 ∷ []))))))

-- The payload of "version" at a time, for the height of the chain.
unfoldable pub build_version_payload : ℕ → ℤ → Result Bytes
unfolding pack_i32
build_version_payload now height = do
  version ← pack_i32 (pos protocol_version)
  services ← pack 8 1
  time ← pack_i64 (pos now)
  nonce ← pack 8 0
  high ← pack_i32 height
  ok (greeting version services time nonce high)

pack_i64-length : (n : ℕ) (bytes : Bytes) → pack_i64 (pos n) ≡ ok bytes → length bytes ≡ 8
unfolding pack_i64 le_bytes
pack_i64-length n bytes h = ground arith

pack_i32-length : (z : ℤ) (bytes : Bytes) → pack_i32 z ≡ ok bytes → length bytes ≡ 4
unfolding pack_i32 le_bytes
pack_i32-length (pos n) bytes h = ground arith
pack_i32-length (negsuc n) bytes h = ground arith

-- `_send_version`: what is written to the peer; a write that fails is only logged.
unfoldable pub send_version : (Bytes → Bytes) → ℕ → ℤ → Text → (Text → Bool) → Result (List Event)
send_version sha256 now height peer_key takes = build_version_payload now height >>= λ payload.
    build_message sha256 (text "version") payload >>= λ msg.
    ok (if takes peer_key then sent peer_key msg ∷ [] else [])

-- A greeting, at every time and height for which it is built, has 104 bytes, and the peer that
-- receives it reads this protocol's version from its first four.
pub build_version_payload-read :
    (now : ℕ) (height : ℤ) (payload : Bytes)
    → build_version_payload now height ≡ ok payload
    → (length payload ≡ 104) × (unpack_i32 (take 4 payload) ≡ pos protocol_version)
unfolding build_version_payload pack_i32 pack le_bytes from_le
build_version_payload-read now height payload h =
    let version = le_bytes 4 protocol_version in
    let services = le_bytes 8 1 in
    let nonce = le_bytes 8 0 in
    let (time, timed, later) =
      >>=-eq-ok (pack_i64 (pos now))
        (λ time. pack_i32 height >>= λ high. ok (greeting version services time nonce high)) h in
    let (high, packed, built) =
      >>=-eq-ok (pack_i32 height) (λ high. ok (greeting version services time nonce high)) later in
    let same : greeting version services time nonce high ≡ payload = cc built in
    let tail = nonce ++ (length user_agent ∷ user_agent ++ (high ++ 1 ∷ [])) in
    let long : length (greeting version services time nonce high) ≡ 104 = omega (
      arith,
      length-append time (replicate 52 0 ++ tail),
      length-append high (1 ∷ []),
      pack_i64-length now time timed,
      pack_i32-length height high packed,
    ) in
    (ap length (sym same) ∙ long, ap (λ p. unpack_i32 (take 4 p)) (sym same) ∙ refl)
