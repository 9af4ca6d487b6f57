-- ===== src/Node/Gossip.antt =====
-- Gossip and the limit on peers (`broadcast_block`, `_handle_inv`, `connect_to_peer`,
-- agent/modules/network_node.py).
use bitchchain.Base.{
  ℕ, suc, ◌≤◌, ◌≡◌, refl, inl, inr, Bool, true, false, some, List, [], ◌∷◌, arith, Text, Bytes,
  text_beq, text_beq_iff, text_eq, Bool-cases, length, length-append, Table, select, update,
  contains, IsKeyed,
}
use bitchchain.Json.{Json}
use bitchchain.Wire.{max_peers}
use bitchchain.Node.{
  PeerInfo, Node, done, known, takes, new_peer, wanted, deliver, broadcast_block, connect_to_peer,
  handle_connection,
}

known_self : (h : Text) (hs : List Text) → known h (h ∷ hs) ≡ true
unfolding known
known_self h hs = rw ((text_beq_iff h h).1 refl) refl

module _ (sha256 : Bytes → Bytes) (works : Text → Bool) where
  -- A peer that is told of a hash has finished the handshake and had not been told before.
  pub deliver-told :
      (h k : Text) (peers : Table Text PeerInfo)
      → IsKeyed peers
      → known k (deliver sha256 works h peers).1 ≡ true
      → (peer : PeerInfo) × (select k peers ≡ some peer)
        × (peer.handshake_done ≡ true)
        × (known h peer.known_inv ≡ false)
        × (works k ≡ true)
  unfolding deliver known
  deliver-told h k [] keyed told = absurd (cc told)
  deliver-told h k ((i, p) ∷ peers) keyed told = elim (Bool-cases (text_beq i k)) [
    | inl same ↦ elim (Bool-cases (takes sha256 works h i p)) [
      | inl taken ↦
          (p, rw same refl, ground arith, ground arith, ground (arith, (text_beq_iff i k).0 same))
      | inr left ↦
          let (q, at, shaken, new, written) = deliver-told h k peers keyed.1 (ground arith) in
          absurd (cc (keyed.0, at, (text_beq_iff i k).0 same))
    ]
    | inr other ↦
        let in_rest : known k (deliver sha256 works h peers).1 ≡ true =
          ground (arith, text_beq_iff i k, text_beq_iff k i) in
        let (q, at, shaken, new, written) = deliver-told h k peers keyed.1 in_rest in
        (q, rw other at, shaken, new, written)
  ]

  known_after :
      (encode : Json → Bytes) (h : Text) (j : Json) (node : Node)
      → known h (broadcast_block sha256 works encode h j node).node.known_blocks ≡ true
  unfolding broadcast_block
  known_after encode h j node = ground (arith, known_self h node.known_blocks)

  -- A block that was broadcast is not broadcast again, whatever data comes with its hash.
  pub broadcast_block-once :
      (encode : Json → Bytes) (h : Text) (j again : Json) (node : Node)
      → let after = (broadcast_block sha256 works encode h j node).node in
        broadcast_block sha256 works encode h again after ≡ done after []
  unfolding broadcast_block
  broadcast_block-once encode h j again node = rw (known_after encode h j node) refl

-- What is asked for was announced with that type and is not known.
pub wanted-unknown :
    (inv_type : ℕ) (seen : List Text) (entries : List (ℕ × Text)) (h : Text)
    → known h (wanted inv_type seen entries) ≡ true
    → known h seen ≡ false
unfolding wanted known
wanted-unknown inv_type seen [] h asked = absurd (cc asked)
wanted-unknown inv_type seen ((t, g) ∷ entries) h asked =
    ground (arith, text_beq_iff h g, wanted-unknown inv_type seen entries h)

length-update :
    (k : Text) (f : PeerInfo → PeerInfo) (peers : Table Text PeerInfo)
    → length (update k f peers) ≡ length peers
length-update k f [] = refl
length-update k f ((i, p) ∷ peers) = ground (arith, length-update k f peers)

-- Outgoing connections keep the number of peers within the limit.
pub connect_to_peer-bounded :
    (opens : Bool) (k addr : Text) (port : ℕ) (node : Node)
    → length node.peers ≤ max_peers
    → length (connect_to_peer opens k addr port node).1.peers ≤ max_peers
unfolding connect_to_peer
connect_to_peer-bounded opens k addr port node h =
    let peer = new_peer addr port in
    ground
      (arith, length-append node.peers ((k, peer) ∷ []), length-update k (λ _. peer) node.peers)

-- An incoming connection from a new address is entered although the limit is reached.
pub handle_connection-exceeds :
    (k addr : Text) (port : ℕ) (node : Node)
    → contains k node.peers ≡ false
    → length node.peers ≡ max_peers
    → (opens : Bool)
    → (length (handle_connection k addr port node).peers ≡ suc max_peers)
      × (connect_to_peer opens k addr port node ≡ (false, node))
unfolding connect_to_peer handle_connection
handle_connection-exceeds k addr port node new full opens =
    (ground (arith, length-append node.peers ((k, new_peer addr port) ∷ [])), ground arith)
