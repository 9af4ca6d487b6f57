-- ===== src/Wire/Inventory.antt =====
-- Round trip of an inventory (`build_inv_payload` and the loop of `_handle_inv`,
-- agent/modules/network_node.py, lines 113 to 118 and 314 to 326).
use bitchchain.Base.{
  take_exact, drop_exact, ℕ, suc, ◌^◌, ◌≤◌, ◌<◌, ◌≡◌, refl, ap, ◌∙◌, List, [], ◌∷◌, ◌++◌, map,
  reverse, arith, Bytes, lt→ltb, length, take, drop, length-append, length-reverse, length-map, ok,
  hex, le_bytes, from_le, pack, AreBytes,
}
use mathlib.Core.List.{append_assoc, reverse-reverse}
use bitchchain.Base.Strings.{from_hex-hex, from_le-le_bytes, length-le_bytes}
use bitchchain.Wire.{
  slice, inv_entry, inv_entries, build_inv_payload, read_inv_entries, read_inv_payload,
}

-- The digests of SHA-256: 32 bytes.
abbrev pub IsDigest : Bytes → Type 0
IsDigest bs = (length bs ≡ 32) × AreBytes bs

unfoldable pub AreDigests : List Bytes → Type 0
AreDigests [] = Unit
AreDigests (bs ∷ rest) = IsDigest bs × AreDigests rest

entry_bytes : ℕ → Bytes → Bytes
entry_bytes inv_type bs = le_bytes 4 inv_type ++ reverse bs

entries_bytes : ℕ → List Bytes → Bytes
entries_bytes inv_type [] = []
entries_bytes inv_type (bs ∷ rest) = entry_bytes inv_type bs ++ entries_bytes inv_type rest

inv_entry-digest :
    (inv_type : ℕ) (bs : Bytes)
    → inv_type < 256 ^ 4
    → IsDigest bs
    → inv_entry inv_type (hex bs) ≡ ok (entry_bytes inv_type bs)
unfolding pack entry_bytes
inv_entry-digest inv_type bs small h =
    rw (lt→ltb inv_type (256 ^ 4) small, from_hex-hex bs h.1) refl

inv_entries-digests :
    (inv_type : ℕ) (hashes : List Bytes)
    → inv_type < 256 ^ 4
    → AreDigests hashes
    → inv_entries inv_type (map hex hashes) ≡ ok (entries_bytes inv_type hashes)
unfolding inv_entries entries_bytes AreDigests
inv_entries-digests inv_type [] small h = refl
inv_entries-digests inv_type (bs ∷ rest) small h =
    rw (inv_entry-digest inv_type bs small h.0, inv_entries-digests inv_type rest small h.1) refl

entry_width : (inv_type : ℕ) (bs : Bytes) → IsDigest bs → length (entry_bytes inv_type bs) ≡ 36
unfolding entry_bytes
entry_width inv_type bs h = omega (
  arith,
  length-append (le_bytes 4 inv_type) (reverse bs),
  length-le_bytes 4 inv_type,
  length-reverse bs,
  h.0,
)

split :
    (inv_type : ℕ) (bs rest : Bytes)
    → entry_bytes inv_type bs ++ rest ≡ le_bytes 4 inv_type ++ (reverse bs ++ rest)
unfolding entry_bytes
split inv_type bs rest = append_assoc (le_bytes 4 inv_type) (reverse bs) rest

type_field :
    (inv_type : ℕ) (bs rest : Bytes)
    → take 4 (entry_bytes inv_type bs ++ rest) ≡ le_bytes 4 inv_type
type_field inv_type bs rest =
    ap (take 4) (split inv_type bs rest)
    ∙ take_exact 4 (le_bytes 4 inv_type) (reverse bs ++ rest) (length-le_bytes 4 inv_type)

hash_field :
    (inv_type : ℕ) (bs rest : Bytes)
    → IsDigest bs
    → slice 4 36 (entry_bytes inv_type bs ++ rest) ≡ reverse bs
hash_field inv_type bs rest h =
    ap (λ t. take 32 (drop 4 t)) (split inv_type bs rest)
    ∙ ap (take 32)
        (drop_exact 4 (le_bytes 4 inv_type) (reverse bs ++ rest) (length-le_bytes 4 inv_type))
    ∙ take_exact 32 (reverse bs) rest (length-reverse bs ∙ h.0)

read_inv_entries-entry :
    (count inv_type : ℕ) (bs rest : Bytes)
    → inv_type < 256 ^ 4
    → IsDigest bs
    → read_inv_entries (suc count) (entry_bytes inv_type bs ++ rest)
      ≡ (inv_type, hex bs) ∷ read_inv_entries count rest
unfolding read_inv_entries
read_inv_entries-entry count inv_type bs rest small h =
    let sent = entry_bytes inv_type bs ++ rest in
    let long : 36 ≤ length sent =
      omega (arith, length-append (entry_bytes inv_type bs) rest, entry_width inv_type bs h) in
    let next : drop 36 sent ≡ rest =
      drop_exact 36 (entry_bytes inv_type bs) rest (entry_width inv_type bs h) in
    rw
      (
        ap from_le (type_field inv_type bs rest) ∙ from_le-le_bytes 4 inv_type small,
        ap reverse (hash_field inv_type bs rest h) ∙ reverse-reverse bs,
        next,
      )
      (ground arith)

read_inv_entries-digests :
    (inv_type : ℕ) (hashes : List Bytes)
    → inv_type < 256 ^ 4
    → AreDigests hashes
    → read_inv_entries (length hashes) (entries_bytes inv_type hashes)
      ≡ map (λ bs. (inv_type, hex bs)) hashes
unfolding read_inv_entries entries_bytes AreDigests
read_inv_entries-digests inv_type [] small h = refl
read_inv_entries-digests inv_type (bs ∷ rest) small h =
    read_inv_entries-entry (length rest) inv_type bs (entries_bytes inv_type rest) small h.0
    ∙ ap (λ t. (inv_type, hex bs) ∷ t) (read_inv_entries-digests inv_type rest small h.1)

-- An inventory of at most 255 digests is read back as what was announced, in its order.
pub read_inv_payload-build_inv_payload :
    (inv_type : ℕ) (hashes : List Bytes)
    → inv_type < 256 ^ 4
    → length hashes ≤ 255
    → AreDigests hashes
    → (payload : Bytes) × (build_inv_payload inv_type (map hex hashes) ≡ ok payload)
      × (read_inv_payload payload ≡ map (λ bs. (inv_type, hex bs)) hashes)
unfolding build_inv_payload read_inv_payload
read_inv_payload-build_inv_payload inv_type hashes small few h =
    let counted = length-map hashes hex in
    (
      length (map hex hashes) ∷ entries_bytes inv_type hashes,
      rw
          (
            lt→ltb (length (map hex hashes)) 256 (omega (arith, counted)),
            inv_entries-digests inv_type hashes small h,
          )
          refl,
      ap (λ n. read_inv_entries n (entries_bytes inv_type hashes)) counted
          ∙ read_inv_entries-digests inv_type hashes small h,
    )
