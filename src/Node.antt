-- ===== src/Node.antt =====
-- The peer-to-peer node (`BitchchainNode`, agent/modules/network_node.py): its peers, the handler
-- of a message, the broadcasts and the limit on peers. The dictionaries of peers and of writers
-- always have the same keys in the same order, so one table stands for both. Sockets are not
-- modelled: a Boolean says whether a write succeeds, and `connection_error` is what it raises.
-- `decode` is `json.loads(payload.decode("utf-8"))` and `encode` its converse.
pub mod Gossip
pub mod Version
pub mod Loop
pub mod Traffic
pub mod Handling
pub mod Reach
use bitchchain.Base.{
  ℕ, ◌+◌, ◌^◌, ◌-◌, Bool, true, false, ◌&&◌, not, Option, none, some, List, [], ◌∷◌, ◌++◌, Text,
  Bytes, text, text_beq, text_eq, ltb, leb, ◌==◌, if◌then◌else◌, length, take, ℤ, pos, sub_ℕ,
  Result, ok, err, ◌>>=◌, Error, connection_error, Table, select, delete, update, contains, from_le,
}
use bitchchain.Json.{Json}
use bitchchain.Wire.{
  build_message, build_inv_payload, read_inv_payload, inv_tx, inv_block, max_peers,
}

-- `PeerInfo`, without the fields that nothing sets or reads back.
pub record PeerInfo : Type 0 where
  pub address : Text
  pub port : ℕ
  pub version : ℤ
  pub handshake_done : Bool
  pub known_inv : List Text

abbrev pub new_peer : Text → ℕ → PeerInfo
new_peer address port = record {
  address = address;
  port = port;
  version = pos 0;
  handshake_done = false;
  known_inv = [];
}

pub record Node : Type 0 where
  pub peers : Table Text PeerInfo
  pub known_blocks : List Text
  pub known_txs : List Text

-- What the node does to the outside: a message to a peer, or a call of a handler.
pub data Event : Type 0 where
  sent : Text → Bytes → Event
  block_received tx_received : Json → Event

-- What a coroutine leaves: the node, what it did in order, and whether it raised.
pub record Step : Type 0 where
  pub node : Node
  pub events : List Event
  pub result : Result (Unit {0})

abbrev pub done : Node → List Event → Step
done node events = record { node = node; events = events; result = ok tt }

-- The second coroutine runs where the first one did not raise.
abbrev pub and_then : Step → (Node → Step) → Step
and_then first next = elim first.result [
  | err e ↦ first
  | ok _ ↦ let second = next first.node in record second { events = first.events ++ second.events }
]

-- Membership in a set of hashes.
unfoldable pub known : Text → List Text → Bool
known h [] = false
known h (x ∷ xs) = if text_beq h x then true else known h xs

abbrev pub set_peer : Text → (PeerInfo → PeerInfo) → Node → Node
set_peer peer_key change node = record node { peers = update peer_key change node.peers }

-- `struct.unpack("<i", …)`
abbrev pub unpack_i32 : Bytes → ℤ
unpack_i32 bytes = let n = from_le bytes in if ltb n (2 ^ 31) then pos n else sub_ℕ n (2 ^ 32)

-- The hashes of one type that the node does not know.
unfoldable pub wanted : ℕ → List Text → List (ℕ × Text) → List Text
wanted inv_type seen [] = []
wanted inv_type seen ((t, h) ∷ entries) =
    let rest = wanted inv_type seen entries in
    if (t == inv_type) && not (known h seen) then h ∷ rest else rest

module _ (sha256 : Bytes → Bytes) (works : Text → Bool) where
  -- `writer.write(build_message(…))` and `writer.drain()`
  abbrev pub write : Text → Text → Bytes → Node → Step
  write peer_key command payload node = elim (build_message sha256 command payload) [
    | err e ↦ record { node = node; events = []; result = err e }
    | ok message ↦
        if works peer_key
        then done node (sent peer_key message ∷ [])
        else record { node = node; events = []; result = err connection_error }
  ]

  abbrev pub request : Text → ℕ → List Text → Node → Step
  request peer_key inv_type [] node = done node []
  request peer_key inv_type (h ∷ hs) node = elim (build_inv_payload inv_type (h ∷ hs)) [
    | err e ↦ record { node = node; events = []; result = err e }
    | ok payload ↦ write peer_key (text "getdata") payload node
  ]

  -- `_handle_inv`
  unfoldable pub handle_inv : Text → Bytes → Node → Step
  unfolding wanted
  handle_inv peer_key payload node =
      let entries = read_inv_payload payload in
      and_then (request peer_key inv_block (wanted inv_block node.known_blocks entries) node)
        (request peer_key inv_tx (wanted inv_tx node.known_txs entries))

  -- The "version" message.
  abbrev pub handle_version : Text → Bytes → Node → Step
  handle_version peer_key payload node =
      let versioned =
        if leb 4 (length payload)
        then set_peer peer_key (λ peer. record peer { version = unpack_i32 (take 4 payload) }) node
        else node in
      and_then (write peer_key (text "verack") [] versioned)
        (λ n. done (set_peer peer_key (λ peer. record peer { handshake_done = true }) n) [])

  -- A "block" or a "tx": what cannot be decoded is dropped, and no exception of the handler
  -- leaves `_handle_message`.
  abbrev pub hand_over : (Json → Event) → Result Json → Node → Step
  hand_over event (ok j) node = done node (event j ∷ [])
  hand_over event (err e) node = done node []

  -- `_handle_message`
  unfoldable pub handle_message : (Bytes → Result Json) → Text → Text → Bytes → Node → Step
  handle_message decode peer_key command payload node = elim (select peer_key node.peers) [
    | none ↦ done node []
    | some peer ↦
        if text_beq command (text "version")
        then handle_version peer_key payload node
        else if text_beq command (text "verack")
        then done (set_peer peer_key (λ p. record p { handshake_done = true }) node) []
        else if text_beq command (text "ping")
        then write peer_key (text "pong") payload node
        else if text_beq command (text "inv")
        then if peer.handshake_done then handle_inv peer_key payload node else done node []
        else if text_beq command (text "block")
        then hand_over block_received (decode payload) node
        else if text_beq command (text "tx")
        then hand_over tx_received (decode payload) node
        else if text_beq command (text "getaddr")
        then write peer_key (text "addr") (0 ∷ []) node
        else done node []
  ]

  -- The loop of a broadcast over the peers: the table afterwards, and the peers written to.
  abbrev pub takes : Text → Text → PeerInfo → Bool
  takes h peer_key peer = peer.handshake_done && not (known h peer.known_inv) && works peer_key

  unfoldable pub deliver : Text → Table Text PeerInfo → Table Text PeerInfo × List Text
  unfolding known
  deliver h [] = ([], [])
  deliver h ((k, peer) ∷ peers) =
      let (rest, told) = deliver h peers in
      if takes h k peer
      then ((k, record peer { known_inv = h ∷ peer.known_inv }) ∷ rest, k ∷ told)
      else ((k, peer) ∷ rest, told)

  unfoldable pub sent_to : Bytes → List Text → List Event
  sent_to message [] = []
  sent_to message (k ∷ ks) = sent k message ∷ sent_to message ks

  abbrev gossip : Text → Text → Bytes → Node → Step
  gossip command h payload node = elim (build_message sha256 command payload) [
    | err e ↦ record { node = node; events = []; result = err e }
    | ok message ↦
        let (peers, told) = deliver h node.peers in
        done (record node { peers = peers }) (sent_to message told)
  ]

  unfoldable pub broadcast_block : (Json → Bytes) → Text → Json → Node → Step
  broadcast_block encode block_hash block_data node =
      if known block_hash node.known_blocks
      then done node []
      else gossip (text "block") block_hash (encode block_data)
          (record node { known_blocks = block_hash ∷ node.known_blocks })

  unfoldable pub broadcast_tx : (Json → Bytes) → Text → Json → Node → Step
  broadcast_tx encode tx_hash tx_data node =
      if known tx_hash node.known_txs
      then done node []
      else gossip (text "tx") tx_hash (encode tx_data)
          (record node { known_txs = tx_hash ∷ node.known_txs })

-- `self._peers[peer_key] = …`
abbrev pub assign_peer : Text → PeerInfo → Table Text PeerInfo → Table Text PeerInfo
assign_peer k peer peers =
    if contains k peers then update k (λ _. peer) peers else peers ++ (k, peer) ∷ []

-- `connect_to_peer`, whose connection opens or does not; the answer is its return value.
unfoldable pub connect_to_peer : Bool → Text → Text → ℕ → Node → Bool × Node
connect_to_peer opens peer_key addr port node =
    if contains peer_key node.peers
    then (false, node)
    else if leb max_peers (length node.peers)
    then (false, node)
    else if opens
    then (true, record node { peers = assign_peer peer_key (new_peer addr port) node.peers })
    else (false, node)

-- `_handle_connection`: an incoming connection is entered without a look at the limit.
unfoldable pub handle_connection : Text → Text → ℕ → Node → Node
handle_connection peer_key addr port node = record node {
  peers = assign_peer peer_key (new_peer addr port) node.peers;
}

-- The end of `_peer_loop`
unfoldable pub drop_peer : Text → Node → Node
drop_peer peer_key node = record node { peers = delete peer_key node.peers }

abbrev shaken : Table Text PeerInfo → ℕ
shaken [] = 0
shaken ((k, peer) ∷ peers) = if peer.handshake_done then 1 + shaken peers else shaken peers

unfoldable pub peer_count : Node → ℕ
peer_count node = shaken node.peers

-- `network_info`, without the constants and the address.
pub record NetworkInfo : Type 0 where
  pub connected_peers : ℕ
  pub known_block_count : ℕ
  pub known_tx_count : ℕ

unfoldable pub network_info : Node → NetworkInfo
unfolding peer_count
network_info node = record {
  connected_peers = peer_count node;
  known_block_count = length node.known_blocks;
  known_tx_count = length node.known_txs;
}

-- `_connect_to_seeds`: the addresses that are handed to `connect_to_peer`, of what the seeds are
-- resolved to: the first two of each, while there is room when the seed is looked at.
unfoldable pub seed_addresses : Node → List (Result (List (Text × ℕ))) → List (Text × ℕ)
seed_addresses node [] = []
seed_addresses node (err e ∷ seeds) = seed_addresses node seeds
seed_addresses node (ok results ∷ seeds) =
    let rest = seed_addresses node seeds in
    if ltb (length node.peers) max_peers then take 2 results ++ rest else rest
