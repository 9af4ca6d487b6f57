-- ===== src/Wire/Fields.antt =====
-- The fields of a message (agent/modules/network_node.py, lines 70 to 96): where `parse_message`
-- finds what `build_message` wrote.
use bitchchain.Base.{
  take_exact, drop_exact, take_whole, ℕ, zero, suc, ◌+◌, ◌-◌, ◌≤◌, ◌<◌, ◌≡◌, refl, sym, ap, ◌∙◌,
  some, List, [], ◌∷◌, ◌++◌, arith, Text, Bytes, text_beq_iff, length, take, drop, replicate,
  length-append, length-take, length-replicate, ok, from_le,
}
use bitchchain.Wire.{
  network_magic, message_max_size, slice, encode_ascii, decode_ascii, pad_command, strip_nuls,
  checksum, parse_message,
}

module _ {ℓ} {A : Type ℓ} where
  drop-nil : (n : ℕ) → drop n [] ≡ (let e : List A = [] in e)
  drop-nil zero = refl
  drop-nil (suc n) = refl

  drop-drop : (m n : ℕ) (xs : List A) → drop (m + n) xs ≡ drop n (drop m xs)
  drop-drop zero n xs = ap (λ k. drop k xs) (omega arith)
  drop-drop (suc m) n [] = drop-nil (suc m + n) ∙ sym (drop-nil n)
  drop-drop (suc m) n (x ∷ xs) =
      let next : suc m + n ≡ suc (m + n) = omega arith in
      ap (λ k. drop k (x ∷ xs)) next ∙ drop-drop m n xs

-- What can be a command: at most twelve ASCII characters other than NUL.
abbrev pub AreCommandCodes : Text → Type 0
AreCommandCodes [] = Unit
AreCommandCodes (c ∷ cs) = (0 < c) × (c < 128) × AreCommandCodes cs

abbrev pub IsCommand : Text → Type 0
IsCommand command = (length command ≤ 12) × AreCommandCodes command

pub encode_ascii-command : (cs : Text) → AreCommandCodes cs → encode_ascii cs ≡ ok cs
unfolding encode_ascii
encode_ascii-command [] h = refl
encode_ascii-command (c ∷ cs) h = ground (arith, encode_ascii-command cs h.2)

decode_ascii-command : (cs : Text) → AreCommandCodes cs → decode_ascii cs ≡ cs
decode_ascii-command [] h = refl
decode_ascii-command (c ∷ cs) h = ground (arith, decode_ascii-command cs h.2)

strip_nuls-replicate : (k : ℕ) → strip_nuls (replicate k 0) ≡ []
unfolding strip_nuls
strip_nuls-replicate zero = refl
strip_nuls-replicate (suc k) = rw (strip_nuls-replicate k)

strip_nuls-command :
    (cs : Text) (k : ℕ) → AreCommandCodes cs → strip_nuls (cs ++ replicate k 0) ≡ cs
unfolding strip_nuls
strip_nuls-command [] k h = strip_nuls-replicate k
strip_nuls-command (c ∷ []) k h = ground (arith, strip_nuls-replicate k)
strip_nuls-command (c ∷ d ∷ cs) k h = rw (strip_nuls-command (d ∷ cs) k h.2)

-- The fields of a frame whose parts have the widths that `parse_message` expects.
pub record Frame (cmd size sum payload rest : Bytes) : Type 0 where
  pub command_width : length cmd ≡ 12
  pub size_width : length size ≡ 4
  pub sum_width : length sum ≡ 4

abbrev pub frame : Bytes → Bytes → Bytes → Bytes → Bytes → Bytes
frame cmd size sum payload rest = network_magic ++ (cmd ++ (size ++ (sum ++ (payload ++ rest))))

module _ (cmd size sum payload rest : Bytes) (w : Frame cmd size sum payload rest) where
  drop-command : drop 16 (frame cmd size sum payload rest) ≡ size ++ (sum ++ (payload ++ rest))
  drop-command = drop_exact 12 cmd (size ++ (sum ++ (payload ++ rest))) w.command_width

  drop-size : drop 20 (frame cmd size sum payload rest) ≡ sum ++ (payload ++ rest)
  drop-size =
      drop-drop 16 4 (frame cmd size sum payload rest)
      ∙ ap (drop 4) drop-command
      ∙ drop_exact 4 size (sum ++ (payload ++ rest)) w.size_width

  drop-sum : drop 24 (frame cmd size sum payload rest) ≡ payload ++ rest
  drop-sum =
      drop-drop 20 4 (frame cmd size sum payload rest)
      ∙ ap (drop 4) drop-size
      ∙ drop_exact 4 sum (payload ++ rest) w.sum_width

  pub command_field : slice 4 16 (frame cmd size sum payload rest) ≡ cmd
  command_field = take_exact 12 cmd (size ++ (sum ++ (payload ++ rest))) w.command_width

  pub size_field : slice 16 20 (frame cmd size sum payload rest) ≡ size
  size_field = ap (take 4) drop-command ∙ take_exact 4 size (sum ++ (payload ++ rest)) w.size_width

  pub sum_field : slice 20 24 (frame cmd size sum payload rest) ≡ sum
  sum_field = ap (take 4) drop-size ∙ take_exact 4 sum (payload ++ rest) w.sum_width

  pub payload_field :
      (n : ℕ) → length payload ≡ n → slice 24 (24 + n) (frame cmd size sum payload rest) ≡ payload
  payload_field n h =
      ap (λ k. take k (drop 24 (frame cmd size sum payload rest))) (omega arith)
      ∙ ap (take n) drop-sum
      ∙ take_exact n payload rest h

  pub length-frame : length (frame cmd size sum payload rest) ≡ 24 + length payload + length rest
  length-frame = omega (
    arith,
    w.command_width,
    w.size_width,
    w.sum_width,
    length-append cmd (size ++ (sum ++ (payload ++ rest))),
    length-append size (sum ++ (payload ++ rest)),
    length-append sum (payload ++ rest),
    length-append payload rest,
  )

pub pad_command-width : (cmd : Bytes) → length cmd ≤ 12 → length (pad_command cmd) ≡ 12
pad_command-width cmd h = omega (
  arith,
  length-take 12 (cmd ++ replicate (12 - length cmd) 0),
  length-append cmd (replicate (12 - length cmd) 0),
  length-replicate {A = ℕ} (12 - length cmd) 0,
)

-- The name of a command is read back from its field.
pub command-read :
    (command : Text) → IsCommand command → decode_ascii (strip_nuls (pad_command command)) ≡ command
command-read command (short, codes) =
    ap (λ t. decode_ascii (strip_nuls t))
      (take_whole 12 (command ++ replicate (12 - length command) 0) (
        omega (
          arith,
          length-append command (replicate (12 - length command) 0),
          length-replicate {A = ℕ} (12 - length command) 0,
        )))
    ∙ ap decode_ascii (strip_nuls-command command (12 - length command) codes)
    ∙ decode_ascii-command command codes

-- `parse_message` on a buffer whose fields are known.
pub parse_message-fields :
    (sha256 : Bytes → Bytes) (bytes : Bytes) (command : Text) (payload : Bytes) (n : ℕ)
    → n ≤ message_max_size
    → 24 + n ≤ length bytes
    → take 4 bytes ≡ network_magic
    → from_le (slice 16 20 bytes) ≡ n
    → slice 24 (24 + n) bytes ≡ payload
    → slice 20 24 bytes ≡ checksum sha256 payload
    → decode_ascii (strip_nuls (slice 4 16 bytes)) ≡ command
    → parse_message sha256 bytes
      ≡ some (record { command = command; payload = payload; consumed = 24 + n })
unfolding parse_message
parse_message-fields sha256 bytes command payload n small long magic size body sum name =
    rw
      (
        size,
        body,
        sum,
        name,
        magic,
        (text_beq_iff network_magic network_magic).1 refl,
        (text_beq_iff (checksum sha256 payload) (checksum sha256 payload)).1 refl,
      )
      (ground arith)
