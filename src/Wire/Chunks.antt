-- ===== src/Wire/Chunks.antt =====
-- A buffer that grows by chunks (`_peer_loop`, agent/modules/network_node.py, lines 237 to 252): what
-- is read of it does not depend on how the bytes are cut.
use bitchchain.Base.{
  ℕ, zero, suc, ◌+◌, ◌-◌, ◌≤◌, ◌<◌, ◌≡◌, refl, sym, ap, ◌∙◌, inl, inr, none, some, List, [], ◌∷◌,
  ◌++◌, ltb, arith, Text, Bytes, length, take, drop, length-append, from_le, Option-cases,
}
use mathlib.Core.Path.{subst}
use bitchchain.Wire.{Message, slice, parse_message, drain, read_messages}
use bitchchain.Wire.Framing.{parse_message-intact, drain-none, drain-some}

take-prefix : (n : ℕ) (bs cs : Bytes) → n ≤ length bs → take n (bs ++ cs) ≡ take n bs
take-prefix zero bs cs h = refl
take-prefix (suc n) [] cs h = absurd (omega (arith, h))
take-prefix (suc n) (b ∷ bs) cs h = ap (λ t. b ∷ t) (take-prefix n bs cs (omega (arith, h)))

drop-prefix : (n : ℕ) (bs cs : Bytes) → n ≤ length bs → drop n (bs ++ cs) ≡ drop n bs ++ cs
drop-prefix zero bs cs h = refl
drop-prefix (suc n) [] cs h = absurd (omega (arith, h))
drop-prefix (suc n) (b ∷ bs) cs h = drop-prefix n bs cs (omega (arith, h))

length-drop : (n : ℕ) (bs : Bytes) → length (drop n bs) ≡ length bs - n
length-drop zero bs = omega arith
length-drop (suc n) [] = omega arith
length-drop (suc n) (b ∷ bs) = omega (arith, length-drop n bs)

slice-append :
    (i j : ℕ) (bs cs : Bytes) → i ≤ j → j ≤ length bs → slice i j (bs ++ cs) ≡ slice i j bs
slice-append i j bs cs small fits =
    ap (take (j - i)) (drop-prefix i bs cs (omega arith))
    ∙ take-prefix (j - i) (drop i bs) cs (omega (arith, length-drop i bs))

module _ (sha256 : Bytes → Bytes) where
  -- The announced size of a message that is read is its payload's, and all of it is there.
  parse_message-sizes :
      (bytes : Bytes) (m : Message)
      → parse_message sha256 bytes ≡ some m
      → (24 ≤ length bytes) × (24 + from_le (slice 16 20 bytes) ≤ length bytes)
  unfolding parse_message
  parse_message-sizes bytes m h = ground arith

  -- What is read of a buffer is read of every longer one.
  parse_message-append :
      (bytes more : Bytes) (m : Message)
      → parse_message sha256 bytes ≡ some m
      → parse_message sha256 (bytes ++ more) ≡ some m
  unfolding parse_message
  parse_message-append bytes more m h =
      let (header, fits) = parse_message-sizes bytes m h in
      let size = from_le (slice 16 20 bytes) in
      let longer : (n : ℕ)
          → n ≤ length bytes
          → ltb (length (bytes ++ more)) n ≡ ltb (length bytes) n =
        λ n enough. ground (arith, length-append bytes more, enough) in
      rw
        (
          slice-append 16 20 bytes more (omega arith) (omega (arith, header)),
          slice-append 20 24 bytes more (omega arith) (omega (arith, header)),
          slice-append 4 16 bytes more (omega arith) (omega (arith, header)),
          slice-append 24 (24 + size) bytes more (omega arith) fits,
          take-prefix 4 bytes more (omega (arith, header)),
          longer 24 header,
          longer (24 + size) fits,
        )
        h

  consumed-shorter :
      (bytes : Bytes) (m : Message)
      → parse_message sha256 bytes ≡ some m
      → length (drop m.consumed bytes) < length bytes
  consumed-shorter bytes m read =
      let whole = parse_message-intact sha256 bytes m read in
      omega (arith, length-drop m.consumed bytes, whole.0, whole.1)

  pub empty_none : (bytes : Bytes) → length bytes ≤ 0 → parse_message sha256 bytes ≡ none
  empty_none bytes h = elim (Option-cases (parse_message sha256 bytes)) [
    | inl missing ↦ missing
    | inr (m, read) ↦ absurd (omega (arith, (parse_message-sizes bytes m read).0, h))
  ]

  -- Rounds beyond the length of the buffer change nothing.
  drain_same :
      (rounds others : ℕ) (bytes : Bytes)
      → length bytes ≤ rounds
      → length bytes ≤ others
      → drain sha256 rounds bytes ≡ drain sha256 others bytes
  drain_same zero others bytes enough also =
      let missing = empty_none bytes enough in
      drain-none sha256 zero bytes missing ∙ sym (drain-none sha256 others bytes missing)
  drain_same (suc rounds) zero bytes enough also =
      let missing = empty_none bytes also in
      drain-none sha256 (suc rounds) bytes missing ∙ sym (drain-none sha256 zero bytes missing)
  drain_same (suc rounds) (suc others) bytes enough also =
      elim (Option-cases (parse_message sha256 bytes)) [
        | inl missing ↦
            drain-none sha256 (suc rounds) bytes missing
            ∙ sym (drain-none sha256 (suc others) bytes missing)
        | inr (m, read) ↦
            let shorter = consumed-shorter bytes m read in
            let (messages, left) = drain sha256 others (drop m.consumed bytes) in
            drain-some sha256 rounds bytes m messages left read (
              drain_same rounds others (drop m.consumed bytes) (omega (arith, shorter, enough))
                (omega (arith, shorter, also)))
            ∙ sym (drain-some sha256 others bytes m messages left read refl)
      ]

  -- What comes out when `more` arrives after the messages in `out.0` were read and `out.1` was left.
  abbrev pub resumed : List (Text × Bytes) × Bytes → Bytes → List (Text × Bytes) × Bytes
  resumed (messages, left) more =
      let (later, rest) = read_messages sha256 (left ++ more) in (messages ++ later, rest)

  abbrev Resumes : Bytes → Bytes → List (Text × Bytes) × Bytes → Type 0
  Resumes bytes more out = read_messages sha256 (bytes ++ more) ≡ resumed out more

  drain-Resumes : (rounds : ℕ) (bytes more : Bytes) → Resumes bytes more (drain sha256 rounds bytes)
  unfolding drain
  drain-Resumes zero bytes more = refl
  drain-Resumes (suc rounds) bytes more = elim (Option-cases (parse_message sha256 bytes)) [
    | inl missing ↦
        subst (Resumes bytes more) (sym (drain-none sha256 (suc rounds) bytes missing)) refl
    | inr (m, read) ↦
        let rest = drop m.consumed bytes in
        let whole = parse_message-intact sha256 bytes m read in
        let shorter = consumed-shorter bytes m read in
        let (messages, left) = drain sha256 rounds rest in
        let (later, end) = resumed (messages, left) more in
        let cut : drop m.consumed (bytes ++ more) ≡ rest ++ more =
          drop-prefix m.consumed bytes more whole.1 in
        let all = length (bytes ++ more) in
        let tail : drain sha256 all (drop m.consumed (bytes ++ more)) ≡ (later, end) =
          ap (drain sha256 all) cut
          ∙ drain_same all (length (rest ++ more)) (rest ++ more)
              (omega (arith, length-append bytes more, length-append rest more, shorter))
              (omega arith)
          ∙ drain-Resumes rounds rest more in
        subst (Resumes bytes more) (sym (drain-some sha256 rounds bytes m messages left read refl))
          (drain_same all (suc all) (bytes ++ more) (omega arith) (omega arith)
            ∙ drain-some sha256 all (bytes ++ more) m later end
                (parse_message-append bytes more m read) tail)
  ]

  -- A buffer is read in the same way whether its first part is read before the rest arrives or all
  -- of it is read at once.
  pub read_messages-append :
      (bytes more : Bytes)
      → read_messages sha256 (bytes ++ more) ≡ resumed (read_messages sha256 bytes) more
  read_messages-append bytes more = drain-Resumes (length bytes) bytes more

  -- What is left of a buffer is not longer than it and holds no whole message.
  abbrev pub Leaves : Bytes → List (Text × Bytes) × Bytes → Type 0
  Leaves bytes out = (parse_message sha256 out.1 ≡ none) × (length out.1 ≤ length bytes)

  drain-Leaves :
      (rounds : ℕ) (bytes : Bytes)
      → length bytes ≤ rounds
      → Leaves bytes (drain sha256 rounds bytes)
  unfolding drain
  drain-Leaves zero bytes enough = (empty_none bytes enough, omega arith)
  drain-Leaves (suc rounds) bytes enough = elim (Option-cases (parse_message sha256 bytes)) [
    | inl missing ↦
        subst (Leaves bytes) (sym (drain-none sha256 (suc rounds) bytes missing))
          (missing, omega arith)
    | inr (m, read) ↦
        let rest = drop m.consumed bytes in
        let shorter = consumed-shorter bytes m read in
        let (messages, left) = drain sha256 rounds rest in
        let (missing, short) = drain-Leaves rounds rest (omega (arith, shorter, enough)) in
        subst (Leaves bytes) (sym (drain-some sha256 rounds bytes m messages left read refl))
          (missing, omega (arith, short, shorter))
  ]

  pub read_messages-Leaves : (bytes : Bytes) → Leaves bytes (read_messages sha256 bytes)
  read_messages-Leaves bytes = drain-Leaves (length bytes) bytes (omega arith)

  pub read_messages-none :
      (bytes : Bytes) → parse_message sha256 bytes ≡ none → read_messages sha256 bytes ≡ ([], bytes)
  read_messages-none bytes missing = drain-none sha256 (length bytes) bytes missing
