-- ===== src/Node/Loop/Cuts.antt =====
-- How the bytes of a connection are cut into chunks does not matter (`_peer_loop`,
-- agent/modules/network_node.py).
use bitchchain.Base.{
  ◌+◌, ◌≤◌, ◌≡◌, refl, sym, ap, ◌∙◌, Bool, false, none, List, [], ◌∷◌, ◌++◌, arith, Text, Bytes,
  ltb, length, length-append, Result, ok, err,
}
use mathlib.Core.List.{append_assoc, append-nil}
use bitchchain.Json.{Json}
use bitchchain.Wire.{message_max_size, parse_message, read_messages}
use bitchchain.Wire.Chunks.{
  read_messages-append, read_messages-Leaves, empty_none, read_messages-none,
}
use bitchchain.Node.{Node, Step, done, and_then, handle_message, drop_peer}
use bitchchain.Node.Loop.{is_empty, handle_all, read_loop, peer_loop}

-- All chunks hold something.
unfoldable pub AreFull : List Bytes → Type 0
AreFull [] = Unit
AreFull (chunk ∷ chunks) = (is_empty chunk ≡ false) × AreFull chunks

unfoldable pub joined_chunks : List Bytes → Bytes
joined_chunks [] = []
joined_chunks (chunk ∷ chunks) = chunk ++ joined_chunks chunks

-- The second coroutine matters at the node that the first one leaves.
and_then-cong :
    (first : Step) (next other : Node → Step)
    → next first.node ≡ other first.node
    → and_then first next ≡ and_then first other
and_then-cong first next other same =
    ap
      (λ (second : Step). elim first.result [
        | err e ↦ first
        | ok _ ↦ record second { events = first.events ++ second.events }
      ])
      same

and_then_assoc :
    (first : Step) (next last : Node → Step)
    → and_then (and_then first next) last ≡ and_then first (λ n. and_then (next n) last)
and_then_assoc first next last =
    let second = next first.node in
    ground (arith, append_assoc first.events second.events (last second.node).events)

and_then-done : (step : Step) → and_then step (λ n. done n []) ≡ step
and_then-done step = ground (arith, append-nil step.events)

module _ (sha256 : Bytes → Bytes) (works : Text → Bool) (decode : Bytes → Result Json)
    (peer_key : Text) where
  handle_all-append :
      (messages more : List (Text × Bytes)) (node : Node)
      → handle_all sha256 works decode peer_key (messages ++ more) node
        ≡ and_then
            (handle_all sha256 works decode peer_key messages node)
            (handle_all sha256 works decode peer_key more)
  unfolding handle_all
  handle_all-append [] more node = refl
  handle_all-append ((command, payload) ∷ messages) more node =
      let first = handle_message sha256 works decode peer_key command payload node in
      and_then-cong first (handle_all sha256 works decode peer_key (messages ++ more))
        (λ n.
          and_then (handle_all sha256 works decode peer_key messages n)
            (handle_all sha256 works decode peer_key more))
        (handle_all-append messages more first.node)
      ∙ sym (
          and_then_assoc first (handle_all sha256 works decode peer_key messages)
            (handle_all sha256 works decode peer_key more))

  read_loop-whole :
      (chunks : List Bytes) (buffer : Bytes) (node : Node)
      → AreFull chunks
      → length buffer + length (joined_chunks chunks) ≤ message_max_size
      → parse_message sha256 buffer ≡ none
      → read_loop sha256 works decode peer_key chunks buffer node
        ≡ handle_all sha256 works decode peer_key
            (read_messages sha256 (buffer ++ joined_chunks chunks)).0
            node
  unfolding read_loop handle_all joined_chunks AreFull
  read_loop-whole [] buffer node full small missing =
      ap (λ out. handle_all sha256 works decode peer_key out.0 node)
        (sym (
          ap (read_messages sha256) (append-nil buffer) ∙ read_messages-none sha256 buffer missing))
  read_loop-whole (chunk ∷ chunks) buffer node full small missing =
      let grown = buffer ++ chunk in
      let (messages, left) = read_messages sha256 grown in
      let (holds, short) = read_messages-Leaves sha256 grown in
      let sum = length-append buffer chunk in
      let total = length-append chunk (joined_chunks chunks) in
      let small_enough : ltb message_max_size (length grown) ≡ false = ground arith in
      let handled = handle_all sha256 works decode peer_key messages node in
      let later = (read_messages sha256 (left ++ joined_chunks chunks)).0 in
      let rest : read_loop sha256 works decode peer_key chunks left handled.node
          ≡ handle_all sha256 works decode peer_key later handled.node =
        read_loop-whole chunks left handled.node full.1 (omega (arith, short, sum, total, small))
          holds in
      rw (full.0, small_enough)
        (and_then-cong handled (read_loop sha256 works decode peer_key chunks left)
            (handle_all sha256 works decode peer_key later) rest
          ∙ sym (handle_all-append messages later node)
          ∙ ap (λ out. handle_all sha256 works decode peer_key out.0 node)
              (sym (read_messages-append sha256 grown (joined_chunks chunks)))
          ∙ ap (λ b. handle_all sha256 works decode peer_key (read_messages sha256 b).0 node)
              (append_assoc buffer chunk (joined_chunks chunks)))

  -- However a peer cuts the bytes that it sends into chunks, none of them empty, the connection ends
  -- as if the messages of the whole had been handled one after the other: the same node, the same
  -- writes and calls of handlers in the same order, and the peer removed. This holds up to 32 MB.
  pub peer_loop-cuts :
      (chunks : List Bytes) (node : Node)
      → AreFull chunks
      → length (joined_chunks chunks) ≤ message_max_size
      → let handled =
          handle_all sha256 works decode peer_key
            (read_messages sha256 (joined_chunks chunks)).0
            node in
        peer_loop sha256 works decode peer_key chunks node
        ≡ done (drop_peer peer_key handled.node) handled.events
  unfolding peer_loop
  peer_loop-cuts chunks node full small =
      ap (λ (read : Step). done (drop_peer peer_key read.node) read.events)
        (read_loop-whole chunks [] node full (omega (arith, small))
          (empty_none sha256 [] (omega arith)))
