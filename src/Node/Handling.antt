-- ===== src/Node/Handling.antt =====
-- What the handling of a message leaves alone (`_handle_message`, agent/modules/network_node.py,
-- line 272): the known hashes, and that no peer's key stands twice.
use bitchchain.Base.{
  ℕ, ◌≡◌, refl, inl, inr, Bool, true, false, Option, none, some, List, [], ◌∷◌, arith, Text, Bytes,
  text, text_beq, text_eq, Bool-cases, Result, ok, err, if◌then◌else◌, leb, length, take, Table,
  select, update, IsKeyed, select-update, append-IsKeyed,
}
use Prim.Native.String.{String}
use bitchchain.Json.{Json}
use bitchchain.Wire.{read_inv_payload, inv_tx, inv_block}
use bitchchain.Node.{
  unpack_i32, PeerInfo, Node, Step, Event, block_received, tx_received, and_then, done, write,
  request, handle_version, hand_over, wanted, set_peer, assign_peer, handle_inv, handle_message,
}

update-IsKeyed :
    (k : Text) (f : PeerInfo → PeerInfo) (peers : Table Text PeerInfo)
    → IsKeyed peers
    → IsKeyed (update k f peers)
update-IsKeyed k f [] keyed = tt
update-IsKeyed k f ((j, peer) ∷ peers) keyed =
    ground (arith, update-IsKeyed k f peers keyed.1, select-update k j f peers)

pub assign_peer-IsKeyed :
    (k : Text) (peer : PeerInfo) (peers : Table Text PeerInfo)
    → IsKeyed peers
    → IsKeyed (assign_peer k peer peers)
assign_peer-IsKeyed k peer peers keyed =
    ground (arith, update-IsKeyed k (λ _. peer) peers keyed, append-IsKeyed k peer peers)

-- A step that leaves the known hashes and the keys as they were.
pub record Keeps (node : Node) (step : Step) : Type 0 where
  pub blocks : step.node.known_blocks ≡ node.known_blocks
  pub txs : step.node.known_txs ≡ node.known_txs
  pub keyed : IsKeyed node.peers → IsKeyed step.node.peers

done-Keeps : (node : Node) (events : List Event) → Keeps node (done node events)
done-Keeps node events = record { blocks = refl; txs = refl; keyed = λ k. k }

and_then-Keeps :
    (node : Node) (first : Step) (next : Node → Step)
    → Keeps node first
    → ((n : Node) → Keeps n (next n))
    → Keeps node (and_then first next)
and_then-Keeps node first next kept later =
    let rest = later first.node in
    ground (arith, kept.blocks, kept.txs, kept.keyed, rest.blocks, rest.txs, rest.keyed)

choose-Keeps :
    (node : Node) (b : Bool) (x y : Step)
    → Keeps node x
    → Keeps node y
    → Keeps node (if b then x else y)
choose-Keeps node true x y kept other = kept
choose-Keeps node false x y kept other = other

set_peer-Keeps :
    (k : Text) (f : PeerInfo → PeerInfo) (node : Node) → Keeps node (done (set_peer k f node) [])
set_peer-Keeps k f node = record {
  blocks = refl;
  txs = refl;
  keyed = update-IsKeyed k f node.peers;
}

peer-Keeps :
    (node : Node) (found : Option PeerInfo) (x : Step) (f : PeerInfo → Step)
    → Keeps node x
    → ((peer : PeerInfo) → Keeps node (f peer))
    → Keeps node (elim found [ none ↦ x | some peer ↦ f peer ])
peer-Keeps node none x f absent present = absent
peer-Keeps node (some peer) x f absent present = present peer

module _ (sha256 : Bytes → Bytes) (decode : Bytes → Result Json) where
  module _ (works : Text → Bool) (peer_key : Text) where
    write-Keeps :
        (command : Text) (payload : Bytes) (node : Node)
        → Keeps node (write sha256 works peer_key command payload node)
    write-Keeps command payload node = ground arith

    request-Keeps :
        (inv_type : ℕ) (hashes : List Text) (node : Node)
        → Keeps node (request sha256 works peer_key inv_type hashes node)
    request-Keeps inv_type [] node = done-Keeps node []
    request-Keeps inv_type (h ∷ hs) node = ground arith

    handle_inv-Keeps :
        (payload : Bytes) (node : Node) → Keeps node (handle_inv sha256 works peer_key payload node)
    unfolding handle_inv
    handle_inv-Keeps payload node =
        let entries = read_inv_payload payload in
        and_then-Keeps node _ _
          (request-Keeps inv_block (wanted inv_block node.known_blocks entries) node)
          (request-Keeps inv_tx (wanted inv_tx node.known_txs entries))

    verack-Keeps :
        (node : Node)
        → Keeps node (
            and_then
              (write sha256 works peer_key (text "verack") [] node)
              (λ n. done (set_peer peer_key (λ p. record p { handshake_done = true }) n) []))
    verack-Keeps node =
        and_then-Keeps node _ _ (write-Keeps (text "verack") [] node) (set_peer-Keeps peer_key _)

    handle_version-Keeps :
        (payload : Bytes) (node : Node)
        → Keeps node (handle_version sha256 works peer_key payload node)
    handle_version-Keeps payload node =
        let number : PeerInfo → PeerInfo =
          λ peer. record peer { version = unpack_i32 (take 4 payload) } in
        elim (Bool-cases (leb 4 (length payload))) [
          | inr short ↦ rw short (verack-Keeps node)
          | inl long ↦
              let kept = verack-Keeps (set_peer peer_key number node) in
              rw long (record {
                blocks = kept.blocks;
                txs = kept.txs;
                keyed = λ keyed. kept.keyed (update-IsKeyed peer_key number node.peers keyed);
              })
        ]

    hand_over-Keeps :
        (event : Json → Event) (out : Result Json) (node : Node)
        → Keeps node (hand_over sha256 works event out node)
    hand_over-Keeps event (ok j) node = done-Keeps node (event j ∷ [])
    hand_over-Keeps event (err e) node = done-Keeps node []

    pub handle_message-Keeps :
        (command : Text) (payload : Bytes) (node : Node)
        → Keeps node (handle_message sha256 works decode peer_key command payload node)
    unfolding handle_message
    handle_message-Keeps command payload node =
        let is : String → Bool = λ name. text_beq command (text name) in
        peer-Keeps node (select peer_key node.peers) _ _ (done-Keeps node []) (λ peer.
          choose-Keeps node (is "version") _ _ (handle_version-Keeps payload node) (
            choose-Keeps node (is "verack") _ _ (set_peer-Keeps peer_key _ node) (
              choose-Keeps node (is "ping") _ _ (write-Keeps (text "pong") payload node) (
                choose-Keeps node (is "inv") _ _
                  (choose-Keeps node peer.handshake_done _ _ (handle_inv-Keeps payload node)
                    (done-Keeps node []))
                  (choose-Keeps node (is "block") _ _
                    (hand_over-Keeps block_received (decode payload) node)
                    (choose-Keeps node (is "tx") _ _
                      (hand_over-Keeps tx_received (decode payload) node)
                      (choose-Keeps node (is "getaddr") _ _
                        (write-Keeps (text "addr") (0 ∷ []) node) (done-Keeps node []))))))))
