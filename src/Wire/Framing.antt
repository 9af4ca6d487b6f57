-- ===== src/Wire/Framing.antt =====
-- Round trip of messages (`build_message`, `parse_message`, the inner loop of `_peer_loop`,
-- agent/modules/network_node.py, lines 70 to 96 and 247 to 252).
use bitchchain.Base.{
  drop_exact, ℕ, zero, suc, ◌+◌, ◌≤◌, ◌≡◌, refl, sym, ap, ◌∙◌, none, some, List, [], ◌∷◌, ◌++◌,
  arith, Text, Bytes, text_beq_iff, lt→ltb, ◌^◌, length, take, drop, length-append, length-take, ok,
  from_le, le_bytes, pack,
}
use mathlib.Core.List.{append_assoc}
use bitchchain.Base.Strings.{from_le-le_bytes, length-le_bytes}
use bitchchain.Tx.{sha256d}
use bitchchain.Wire.{
  network_magic, message_max_size, slice, decode_ascii, pad_command, strip_nuls, Message, checksum,
  build_message, parse_message, drain, read_messages,
}
use bitchchain.Wire.Fields.{
  IsCommand, encode_ascii-command, pad_command-width, command-read, Frame, frame, command_field,
  size_field, sum_field, payload_field, length-frame, parse_message-fields,
}

module _ (sha256 : Bytes → Bytes) where
  pub drain-none :
      (rounds : ℕ) (bytes : Bytes)
      → parse_message sha256 bytes ≡ none
      → drain sha256 rounds bytes ≡ ([], bytes)
  unfolding drain
  drain-none zero bytes h = refl
  drain-none (suc rounds) bytes h = rw (h, drain) refl

  pub drain-some :
      (rounds : ℕ) (bytes : Bytes) (m : Message) (messages : List (Text × Bytes)) (left : Bytes)
      → parse_message sha256 bytes ≡ some m
      → drain sha256 rounds (drop m.consumed bytes) ≡ (messages, left)
      → drain sha256 (suc rounds) bytes ≡ ((m.command, m.payload) ∷ messages, left)
  unfolding drain
  drain-some rounds bytes m messages left h later = rw (h, later, drain) refl

module _ (sha256 : Bytes → Bytes) (width : (bytes : Bytes) → length (sha256 bytes) ≡ 32) where
  checksum-width : (payload : Bytes) → length (checksum sha256 payload) ≡ 4
  unfolding checksum sha256d
  checksum-width payload =
      omega (arith, length-take 4 (sha256d sha256 payload), width (sha256 payload))

  build_frame : Text → Bytes → Bytes
  build_frame command payload =
      network_magic
      ++ (pad_command command
          ++ (le_bytes 4 (length payload) ++ (checksum sha256 payload ++ payload)))

  build_message-frame :
      (command : Text) (payload : Bytes)
      → IsCommand command
      → length payload ≤ message_max_size
      → build_message sha256 command payload ≡ ok (build_frame command payload)
  unfolding build_message pack build_frame
  build_message-frame command payload h small =
      rw (encode_ascii-command command h.1, lt→ltb (length payload) (256 ^ 4) (omega arith)) refl

  parts :
      (command : Text) (payload rest : Bytes)
      → IsCommand command
      → Frame
          (pad_command command)
          (le_bytes 4 (length payload))
          (checksum sha256 payload)
          payload
          rest
  parts command payload rest h = record {
    command_width = pad_command-width command h.0;
    size_width = length-le_bytes 4 (length payload);
    sum_width = checksum-width payload;
  }

  -- A frame is read with the fields that it was built from, whatever follows it.
  parse_message-frame :
      (command : Text) (payload rest : Bytes)
      → IsCommand command
      → length payload ≤ message_max_size
      → parse_message sha256 (
          frame
            (pad_command command)
            (le_bytes 4 (length payload))
            (checksum sha256 payload)
            payload
            rest)
        ≡ some (record { command = command; payload = payload; consumed = 24 + length payload })
  parse_message-frame command payload rest h small =
      let cmd = pad_command command in
      let size = le_bytes 4 (length payload) in
      let sum = checksum sha256 payload in
      let w = parts command payload rest h in
      parse_message-fields sha256 (frame cmd size sum payload rest) command payload (length payload)
        small (omega (arith, length-frame cmd size sum payload rest w)) refl
        (ap from_le (size_field cmd size sum payload rest w)
          ∙ from_le-le_bytes 4 (length payload) (omega arith))
        (payload_field cmd size sum payload rest w (length payload) refl)
        (sum_field cmd size sum payload rest w)
        (ap (λ t. decode_ascii (strip_nuls t)) (command_field cmd size sum payload rest w)
          ∙ command-read command h)

  build_frame-append :
      (command : Text) (payload rest : Bytes)
      → build_frame command payload ++ rest
        ≡ frame
            (pad_command command)
            (le_bytes 4 (length payload))
            (checksum sha256 payload)
            payload
            rest
  unfolding build_frame
  build_frame-append command payload rest =
      let cmd = pad_command command in
      let size = le_bytes 4 (length payload) in
      let sum = checksum sha256 payload in
      ap (λ t. network_magic ++ t)
        (append_assoc cmd (size ++ (sum ++ payload)) rest
          ∙ ap (λ t. cmd ++ t) (append_assoc size (sum ++ payload) rest)
          ∙ ap (λ t. cmd ++ (size ++ t)) (append_assoc sum payload rest))

  frame-length :
      (command : Text) (payload : Bytes)
      → IsCommand command
      → 24 + length payload ≡ length (build_frame command payload)
  unfolding build_frame
  frame-length command payload h =
      let cmd = pad_command command in
      let size = le_bytes 4 (length payload) in
      let sum = checksum sha256 payload in
      let w = parts command payload [] h in
      omega (
        arith,
        w.command_width,
        w.size_width,
        w.sum_width,
        length-append cmd (size ++ (sum ++ payload)),
        length-append size (sum ++ payload),
        length-append sum payload,
      )

  -- The width of SHA-256's digests is what this relies on: a message built from a command of at
  -- most twelve ASCII characters and a payload of at most 32 MB is read back, whatever bytes
  -- follow it, and exactly its own bytes are consumed.
  pub parse_message-build_message :
      (command : Text) (payload rest : Bytes)
      → IsCommand command
      → length payload ≤ message_max_size
      → (message : Bytes) × (build_message sha256 command payload ≡ ok message)
        × (parse_message sha256 (message ++ rest)
            ≡ some (record { command = command; payload = payload; consumed = length message }))
  parse_message-build_message command payload rest h small =
      let frame_length : 24 + length payload ≡ length (build_frame command payload) =
        frame-length command payload h in
      (
        build_frame command payload,
        build_message-frame command payload h small,
        ap (parse_message sha256) (build_frame-append command payload rest)
            ∙ parse_message-frame command payload rest h small
            ∙ ap (λ n. some (record { command = command; payload = payload; consumed = n }))
                frame_length,
      )

  -- The bytes that a peer sends: messages that it built, then `rest`.
  unfoldable pub IsStream : List (Text × Bytes) → Bytes → Bytes → Type 0
  IsStream [] rest sent = sent ≡ rest
  IsStream ((command, payload) ∷ messages) rest sent =
      (message : Bytes) × (tail : Bytes) × (build_message sha256 command payload ≡ ok message)
      × (sent ≡ message ++ tail)
      × IsStream messages rest tail

  unfoldable pub AreSendable : List (Text × Bytes) → Type 0
  AreSendable [] = Unit
  AreSendable ((command, payload) ∷ messages) =
      IsCommand command × (length payload ≤ message_max_size) × AreSendable messages

  is-frame :
      (command : Text) (payload message : Bytes)
      → IsCommand command
      → length payload ≤ message_max_size
      → build_message sha256 command payload ≡ ok message
      → message ≡ build_frame command payload
  is-frame command payload message h small built =
      cc (built, build_message-frame command payload h small)

  drain-frame :
      (command : Text) (payload : Bytes) (messages : List (Text × Bytes)) (tail rest : Bytes)
      (rounds : ℕ)
      → IsCommand command
      → length payload ≤ message_max_size
      → drain sha256 rounds tail ≡ (messages, rest)
      → drain sha256 (suc rounds) (build_frame command payload ++ tail)
        ≡ ((command, payload) ∷ messages, rest)
  drain-frame command payload messages tail rest rounds h small later =
      let f = build_frame command payload in
      drain-some sha256 rounds (f ++ tail)
        (record { command = command; payload = payload; consumed = 24 + length payload }) messages
        rest
        (ap (parse_message sha256) (build_frame-append command payload tail)
          ∙ parse_message-frame command payload tail h small)
        (ap (drain sha256 rounds)
            (drop_exact (24 + length payload) f tail (sym (frame-length command payload h)))
          ∙ later)

  drain-stream :
      (messages : List (Text × Bytes)) (rest sent : Bytes) (rounds : ℕ)
      → AreSendable messages
      → IsStream messages rest sent
      → parse_message sha256 rest ≡ none
      → length sent ≤ rounds
      → drain sha256 rounds sent ≡ (messages, rest)
  unfolding drain IsStream AreSendable
  drain-stream [] rest sent rounds good stream done enough =
      ap (drain sha256 rounds) stream ∙ drain-none sha256 rounds rest done
  drain-stream ((command, payload) ∷ messages) rest sent zero good stream done enough =
      let (message, tail, built, whole, later) = stream in
      let same = is-frame command payload message good.0 good.1 built in
      absurd (
        omega (
          arith,
          ap length whole,
          length-append message tail,
          ap length same,
          frame-length command payload good.0,
        ))
  drain-stream ((command, payload) ∷ messages) rest sent (suc rounds) good stream done enough =
      let (message, tail, built, whole, later) = stream in
      let same = is-frame command payload message good.0 good.1 built in
      let shorter : length tail ≤ rounds = omega (
        arith,
        ap length whole,
        length-append message tail,
        ap length same,
        frame-length command payload good.0,
      ) in
      ap (drain sha256 (suc rounds)) (whole ∙ ap (λ m. m ++ tail) same)
      ∙ drain-frame command payload messages tail rest rounds good.0 good.1
          (drain-stream messages rest tail rounds good.2 later done shorter)

  -- A peer's buffer of messages, followed by bytes that are not yet a message, is read as these
  -- messages in their order, and the bytes that follow stay in the buffer.
  pub read_messages-stream :
      (messages : List (Text × Bytes)) (rest sent : Bytes)
      → AreSendable messages
      → IsStream messages rest sent
      → parse_message sha256 rest ≡ none
      → read_messages sha256 sent ≡ (messages, rest)
  read_messages-stream messages rest sent good stream done =
      drain-stream messages rest sent (length sent) good stream done (omega arith)

-- What `parse_message` returns is whole: the payload lies in the buffer, has the announced length
-- and the announced checksum, and at least the header is consumed.
pub parse_message-intact :
    (sha256 : Bytes → Bytes) (bytes : Bytes) (m : Message)
    → parse_message sha256 bytes ≡ some m
    → (24 ≤ m.consumed)
      × (m.consumed ≤ length bytes)
      × (m.payload ≡ slice 24 m.consumed bytes)
      × (checksum sha256 m.payload ≡ slice 20 24 bytes)
      × (take 4 bytes ≡ network_magic)
unfolding parse_message
parse_message-intact sha256 bytes m h =
    let size = from_le (slice 16 20 bytes) in
    ground (
      arith,
      text_beq_iff (take 4 bytes) network_magic,
      text_beq_iff (checksum sha256 (slice 24 (24 + size) bytes)) (slice 20 24 bytes),
    )
