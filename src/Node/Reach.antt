-- ===== src/Node/Reach.antt =====
-- The states of the node, under any interleaving of connections, messages, broadcasts and
-- disconnections (agent/modules/network_node.py, lines 168 to 375). Each coroutine is one step.
use bitchchain.Base.{
  ℕ, ◌≤◌, ◌≡◌, refl, sym, inl, inr, Bool, false, List, [], ◌∷◌, ◌++◌, arith, Text, Bytes, text,
  text_beq, text_beq_iff, text_eq, Bool-cases, Result, IsKeyed, delete-IsKeyed,
}
use mathlib.Core.Path.{subst}
use bitchchain.Json.{Json}
use bitchchain.Node.{
  Node, known, new_peer, handle_message, gossip, broadcast_block, broadcast_tx, connect_to_peer,
  handle_connection, drop_peer,
}
use bitchchain.Node.Handling.{assign_peer-IsKeyed, handle_message-Keeps}
use bitchchain.Node.Traffic.{Log, tells, times, times-append, told_other, gossip-SentOnce}

-- A fresh node.
abbrev pub fresh_node : Node
fresh_node = record { peers = []; known_blocks = []; known_txs = [] }

module _ (sha256 : Bytes → Bytes) (decode : Bytes → Result Json) (encode : Json → Bytes) where
  -- The states that a node reaches, each with the peers that blocks and transactions went to; the
  -- writes that succeed may be others at each step.
  pub data Reach : Node → Log → Log → Type 0 where
    began : Reach fresh_node [] []
    connected :
        {node : Node} {blocks txs : Log} (opens : Bool) (peer_key addr : Text) (port : ℕ)
        → Reach node blocks txs
        → Reach (connect_to_peer opens peer_key addr port node).1 blocks txs
    accepted :
        {node : Node} {blocks txs : Log} (peer_key addr : Text) (port : ℕ)
        → Reach node blocks txs
        → Reach (handle_connection peer_key addr port node) blocks txs
    dropped :
        {node : Node} {blocks txs : Log} (peer_key : Text)
        → Reach node blocks txs
        → Reach (drop_peer peer_key node) blocks txs
    handled :
        {node : Node} {blocks txs : Log} (works : Text → Bool) (peer_key command : Text)
        (payload : Bytes)
        → Reach node blocks txs
        → Reach (handle_message sha256 works decode peer_key command payload node).node blocks txs
    block_sent :
        {node : Node} {blocks txs : Log} (works : Text → Bool) (hash : Text) (j : Json)
        → Reach node blocks txs
        → Reach
            (broadcast_block sha256 works encode hash j node).node
            (blocks ++ tells hash (broadcast_block sha256 works encode hash j node).events)
            txs
    tx_sent :
        {node : Node} {blocks txs : Log} (works : Text → Bool) (hash : Text) (j : Json)
        → Reach node blocks txs
        → Reach
            (broadcast_tx sha256 works encode hash j node).node
            blocks
            (txs ++ tells hash (broadcast_tx sha256 works encode hash j node).events)

  -- What is not known has gone to nobody, and nothing has gone to a peer twice.
  abbrev pub IsOnce : List Text → Log → Type 0
  IsOnce seen log = (h k : Text) → (times h k log ≤ 1) × (known h seen ≡ false → times h k log ≡ 0)

  pub record IsQuiet (node : Node) (blocks txs : Log) : Type 0 where
    pub keyed : IsKeyed node.peers
    pub blocks_once : IsOnce node.known_blocks blocks
    pub txs_once : IsOnce node.known_txs txs

  began-IsQuiet : IsQuiet fresh_node [] []
  unfolding times known
  began-IsQuiet = record {
    keyed = tt;
    blocks_once = λ h k. (omega arith, λ n. refl);
    txs_once = λ h k. (omega arith, λ n. refl);
  }

  connected-IsKeyed :
      (opens : Bool) (peer_key addr : Text) (port : ℕ) (node : Node)
      → IsKeyed node.peers
      → let after = (connect_to_peer opens peer_key addr port node).1 in
        IsKeyed after.peers
        × (after.known_blocks ≡ node.known_blocks)
        × (after.known_txs ≡ node.known_txs)
  unfolding connect_to_peer
  connected-IsKeyed opens peer_key addr port node keyed =
      ground (arith, assign_peer-IsKeyed peer_key (new_peer addr port) node.peers keyed)

  -- A broadcast of a hash that is not known, onto what has been sent.
  IsOnce-append :
      (hash : Text) (seen : List Text) (log more : Log)
      → known hash seen ≡ false
      → ((k : Text) → times hash k more ≤ 1)
      → ((h k : Text) → text_beq hash h ≡ false → times h k more ≡ 0)
      → IsOnce seen log
      → IsOnce (hash ∷ seen) (log ++ more)
  unfolding known
  IsOnce-append hash seen log more new once others before h k =
      let (most, none_yet) = before h k in
      let sum = times-append h k log more in
      elim (Bool-cases (text_beq hash h)) [
        | inl same ↦
            let e = (text_beq_iff hash h).0 same in
            let fresh : known h seen ≡ false = subst (λ x. known x seen ≡ false) e new in
            let told : times h k more ≤ 1 = subst (λ x. times x k more ≤ 1) e (once k) in
            ground (arith, sum, none_yet fresh, told, (text_beq_iff h hash).1 (sym e))
        | inr other ↦
            ground (arith, sum, others h k other, text_beq_iff h hash, text_beq_iff hash h)
      ]

  IsOnce-nothing : (seen : List Text) (log : Log) → IsOnce seen log → IsOnce seen (log ++ [])
  unfolding times
  IsOnce-nothing seen log before h k = ground (arith, before h k, times-append h k log [])

  module _ (works : Text → Bool) (hash : Text) (j : Json) (node : Node) (blocks txs : Log) where
    block_sent-IsQuiet :
        IsQuiet node blocks txs
        → let step = broadcast_block sha256 works encode hash j node in
          IsQuiet step.node (blocks ++ tells hash step.events) txs
    unfolding broadcast_block tells
    block_sent-IsQuiet q = elim (Bool-cases (known hash node.known_blocks)) [
      | inl old ↦ rw old (record {
        keyed = q.keyed;
        blocks_once = IsOnce-nothing node.known_blocks blocks q.blocks_once;
        txs_once = q.txs_once;
      })
      | inr new ↦
          let before = record node { known_blocks = hash ∷ node.known_blocks } in
          let (keyed, once, same_blocks, same_txs) =
            gossip-SentOnce sha256 works (text "block") hash (encode j) before q.keyed in
          let step = gossip sha256 works (text "block") hash (encode j) before in
          rw new (record {
            keyed = keyed;
            blocks_once =
                subst (λ seen. IsOnce seen (blocks ++ tells hash step.events)) (sym same_blocks)
                  (IsOnce-append hash node.known_blocks blocks (tells hash step.events) new once
                    (λ h k other. told_other sha256 works h hash k step.events other)
                    q.blocks_once);
            txs_once = subst (λ seen. IsOnce seen txs) (sym same_txs) q.txs_once;
          })
    ]

    tx_sent-IsQuiet :
        IsQuiet node blocks txs
        → let step = broadcast_tx sha256 works encode hash j node in
          IsQuiet step.node blocks (txs ++ tells hash step.events)
    unfolding broadcast_tx tells
    tx_sent-IsQuiet q = elim (Bool-cases (known hash node.known_txs)) [
      | inl old ↦ rw old (record {
        keyed = q.keyed;
        blocks_once = q.blocks_once;
        txs_once = IsOnce-nothing node.known_txs txs q.txs_once;
      })
      | inr new ↦
          let before = record node { known_txs = hash ∷ node.known_txs } in
          let (keyed, once, same_blocks, same_txs) =
            gossip-SentOnce sha256 works (text "tx") hash (encode j) before q.keyed in
          let step = gossip sha256 works (text "tx") hash (encode j) before in
          rw new (record {
            keyed = keyed;
            blocks_once = subst (λ seen. IsOnce seen blocks) (sym same_blocks) q.blocks_once;
            txs_once =
                subst (λ seen. IsOnce seen (txs ++ tells hash step.events)) (sym same_txs)
                  (IsOnce-append hash node.known_txs txs (tells hash step.events) new once
                    (λ h k other. told_other sha256 works h hash k step.events other) q.txs_once);
          })
    ]

  -- A step that leaves what is known as it was.
  still :
      (node after : Node) (blocks txs : Log)
      → IsQuiet node blocks txs
      → IsKeyed after.peers
      → after.known_blocks ≡ node.known_blocks
      → after.known_txs ≡ node.known_txs
      → IsQuiet after blocks txs
  still node after blocks txs q keyed same_blocks same_txs = record {
    keyed = keyed;
    blocks_once = subst (λ seen. IsOnce seen blocks) (sym same_blocks) q.blocks_once;
    txs_once = subst (λ seen. IsOnce seen txs) (sym same_txs) q.txs_once;
  }

  -- In every state that a node reaches, under any interleaving of connections in both directions,
  -- disconnections, messages of peers and broadcasts, and whichever writes fail: the table of peers
  -- has no key twice, no block and no transaction has gone to a peer's address twice, and what has
  -- gone to anybody is known.
  pub Reach-IsQuiet :
      (node : Node) (blocks txs : Log) → Reach node blocks txs → IsQuiet node blocks txs
  unfolding handle_connection drop_peer
  Reach-IsQuiet _ _ _ began = began-IsQuiet
  Reach-IsQuiet _ blocks txs (connected {node} opens peer_key addr port r) =
      let q = Reach-IsQuiet node blocks txs r in
      let (keyed, same_blocks, same_txs) =
        connected-IsKeyed opens peer_key addr port node q.keyed in
      still node _ blocks txs q keyed same_blocks same_txs
  Reach-IsQuiet _ blocks txs (accepted {node} peer_key addr port r) =
      let q = Reach-IsQuiet node blocks txs r in
      still node _ blocks txs q
        (assign_peer-IsKeyed peer_key (new_peer addr port) node.peers q.keyed) refl refl
  Reach-IsQuiet _ blocks txs (dropped {node} peer_key r) =
      let q = Reach-IsQuiet node blocks txs r in
      still node _ blocks txs q (delete-IsKeyed peer_key node.peers q.keyed) refl refl
  Reach-IsQuiet _ blocks txs (handled {node} works peer_key command payload r) =
      let q = Reach-IsQuiet node blocks txs r in
      let kept = handle_message-Keeps sha256 decode works peer_key command payload node in
      still node _ blocks txs q (kept.keyed q.keyed) kept.blocks kept.txs
  Reach-IsQuiet _ _ txs (block_sent {node} {blocks} works hash j r) =
      block_sent-IsQuiet works hash j node blocks txs (Reach-IsQuiet node blocks txs r)
  Reach-IsQuiet _ blocks _ (tx_sent {node} {txs} works hash j r) =
      tx_sent-IsQuiet works hash j node blocks txs (Reach-IsQuiet node blocks txs r)
