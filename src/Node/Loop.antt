-- ===== src/Node/Loop.antt =====
-- The loop over a connection (`_peer_loop`, agent/modules/network_node.py, lines 232 to 265), on the
-- chunks that the socket delivers until it is closed or a read fails.
pub mod Cuts
use bitchchain.Base.{
  ℕ, ◌+◌, Bool, true, false, List, [], ◌∷◌, ◌++◌, Text, Bytes, ltb, if◌then◌else◌, length, Result,
  ok, err,
}
use bitchchain.Json.{Json}
use bitchchain.Wire.{message_max_size, read_messages}
use bitchchain.Node.{Node, Step, done, and_then, handle_message, drop_peer}

abbrev pub is_empty : Bytes → Bool
is_empty [] = true
is_empty (b ∷ bs) = false

module _ (sha256 : Bytes → Bytes) (works : Text → Bool) (decode : Bytes → Result Json) where
  -- The messages of a buffer, in their order, until one raises.
  unfoldable pub handle_all : Text → List (Text × Bytes) → Node → Step
  handle_all peer_key [] node = done node []
  handle_all peer_key ((command, payload) ∷ messages) node =
      and_then (handle_message sha256 works decode peer_key command payload node)
        (handle_all peer_key messages)

  -- The `try` block. It ends with the connection, with a buffer that is too long, and with what a
  -- message raises.
  unfoldable pub read_loop : Text → List Bytes → Bytes → Node → Step
  unfolding handle_all
  read_loop peer_key [] buffer node = done node []
  read_loop peer_key (chunk ∷ chunks) buffer node =
      let (messages, left) = read_messages sha256 (buffer ++ chunk) in
      let rest = and_then (handle_all peer_key messages node) (read_loop peer_key chunks left) in
      if is_empty chunk
      then done node []
      else if ltb message_max_size (length (buffer ++ chunk))
      then done node []
      else rest

  -- `_peer_loop`: whatever ended it, the peer is removed, and no exception leaves it.
  unfoldable pub peer_loop : Text → List Bytes → Node → Step
  unfolding read_loop
  peer_loop peer_key chunks node =
      let read = read_loop peer_key chunks [] node in
      done (drop_peer peer_key read.node) read.events
