-- ===== src/Node/Traffic.antt =====
-- How often a hash goes to a peer: what one broadcast sends (`broadcast_block`, `broadcast_tx`,
-- agent/modules/network_node.py).
use bitchchain.Base.{
  ℕ, suc, ◌+◌, ◌≤◌, ◌≡◌, refl, inl, inr, Bool, false, none, List, [], ◌∷◌, ◌++◌, arith, Result,
  Text, Bytes, text_beq, text_beq_iff, text_eq, Bool-cases, if◌then◌else◌, ◌&&◌, Table, select,
  IsKeyed, ok, err,
}
use bitchchain.Wire.{build_message}
use bitchchain.Node.{
  PeerInfo, Node, Step, Event, sent, block_received, tx_received, deliver, sent_to, gossip,
}

-- A hash and the key of the peer that it went to.
abbrev pub Log : Type 0
Log = List (Text × Text)

-- The writes among the events of a broadcast of a hash.
unfoldable pub tells : Text → List Event → Log
tells h [] = []
tells h (sent k message ∷ events) = (h, k) ∷ tells h events
tells h (block_received j ∷ events) = tells h events
tells h (tx_received j ∷ events) = tells h events

-- How often a hash went to a peer.
unfoldable pub times : Text → Text → Log → ℕ
times h k [] = 0
times h k ((g, j) ∷ log) =
    let rest = times h k log in if text_beq g h && text_beq j k then suc rest else rest

pub times-append :
    (h k : Text) (log more : Log) → times h k (log ++ more) ≡ times h k log + times h k more
unfolding times
times-append h k [] more = omega arith
times-append h k ((g, j) ∷ log) more = ground (arith, times-append h k log more)

module _ (sha256 : Bytes → Bytes) (works : Text → Bool) where
  told_absent :
      (h k : Text) (message : Bytes) (peers : Table Text PeerInfo)
      → select k peers ≡ none
      → times h k (tells h (sent_to sha256 works message (deliver sha256 works h peers).1)) ≡ 0
  unfolding deliver sent_to tells times
  told_absent h k message [] absent = refl
  told_absent h k message ((j, peer) ∷ peers) absent = ground (arith, told_absent h k message peers)

  told_once :
      (h k : Text) (message : Bytes) (peers : Table Text PeerInfo)
      → IsKeyed peers
      → times h k (tells h (sent_to sha256 works message (deliver sha256 works h peers).1)) ≤ 1
  unfolding deliver sent_to tells times
  told_once h k message [] keyed = omega arith
  told_once h k message ((j, peer) ∷ peers) keyed = elim (Bool-cases (text_beq j k)) [
    | inl same ↦ ground (arith, text_beq_iff j k, told_absent h k message peers)
    | inr other ↦ ground (arith, told_once h k message peers keyed.1)
  ]

  pub told_other :
      (h g k : Text) (events : List Event) → text_beq g h ≡ false → times h k (tells g events) ≡ 0
  unfolding tells times
  told_other h g k [] other = refl
  told_other h g k (sent j message ∷ events) other = ground (arith, told_other h g k events)
  told_other h g k (block_received j ∷ events) other = told_other h g k events other
  told_other h g k (tx_received j ∷ events) other = told_other h g k events other

  select-deliver :
      (h k : Text) (peers : Table Text PeerInfo)
      → select k peers ≡ none
      → select k (deliver sha256 works h peers).0 ≡ none
  unfolding deliver
  select-deliver h k [] absent = refl
  select-deliver h k ((j, peer) ∷ peers) absent = ground (arith, select-deliver h k peers)

  deliver-IsKeyed :
      (h : Text) (peers : Table Text PeerInfo)
      → IsKeyed peers
      → IsKeyed (deliver sha256 works h peers).0
  unfolding deliver
  deliver-IsKeyed h [] keyed = tt
  deliver-IsKeyed h ((j, peer) ∷ peers) keyed =
      ground (arith, deliver-IsKeyed h peers keyed.1, select-deliver h j peers keyed.0)

  -- What one broadcast that is not stopped leaves.
  abbrev pub SentOnce : Text → Node → Step → Type 0
  SentOnce h node step =
      IsKeyed step.node.peers
      × ((k : Text) → times h k (tells h step.events) ≤ 1)
      × (step.node.known_blocks ≡ node.known_blocks)
      × (step.node.known_txs ≡ node.known_txs)

  gossiped :
      (command h : Text) (payload : Bytes) (node : Node) (out : Result Bytes)
      → build_message sha256 command payload ≡ out
      → IsKeyed node.peers
      → SentOnce h node (gossip sha256 works command h payload node)
  unfolding tells times
  gossiped command h payload node (err e) at keyed =
      rw (at, gossip) (keyed, λ k. omega arith, refl, refl)
  gossiped command h payload node (ok message) at keyed =
      rw (at, gossip)
        (
          deliver-IsKeyed h node.peers keyed,
          λ k. told_once h k message node.peers keyed,
          refl,
          refl,
        )

  pub gossip-SentOnce :
      (command h : Text) (payload : Bytes) (node : Node)
      → IsKeyed node.peers
      → SentOnce h node (gossip sha256 works command h payload node)
  gossip-SentOnce command h payload node keyed =
      gossiped command h payload node (build_message sha256 command payload) refl keyed
