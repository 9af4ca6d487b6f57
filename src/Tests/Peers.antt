-- ===== src/Tests/Peers.antt =====
-- Messages, inventories, peers, the store and the nonce search at concrete values.
use bitchchain.Base.{
  ◌≤◌, ◌≡◌, refl, arith, true, some, none, [], ◌∷◌, ◌++◌, text, text_eq, pos, ok, Bytes, length,
  replicate, hex, from_hex, int_hex, pack, le_bytes,
}
use bitchchain.Json.{Json}
use bitchchain.Pow.{bits_to_target, whole, below_target}
use bitchchain.Tx.{header_hash, serialize, sha256d}
use bitchchain.Mining.{try_nonce, search_nonce, with_nonce, refresh}
use bitchchain.Mining.Search.{IsHit, AllMiss, search_nonce_complete, search_nonce_exhausted}
use bitchchain.Memory.{Memory, PoolRow, by_fee}
use bitchchain.Memory.Laws.{IsByFee, by_fee-IsByFee}
use bitchchain.Wire.{build_message, parse_message, read_messages}
use bitchchain.Wire.Fields.{IsCommand}
use bitchchain.Wire.Framing.{
  parse_message-build_message, read_messages-stream, IsStream, AreSendable,
}
use bitchchain.Node.{PeerInfo, Node, new_peer, connect_to_peer}
use bitchchain.Node.Gossip.{connect_to_peer-bounded}
use bitchchain.Tests.{zero_sha, first_block}

digest_width : (bytes : Bytes) → length (zero_sha bytes) ≡ 32
digest_width bytes = refl

hi-IsCommand : IsCommand (text "hi")
hi-IsCommand = (omega arith, (omega arith, omega arith, (omega arith, omega arith, tt)))

abbrev shaken : PeerInfo
shaken = record (new_peer (text "a") 1) { handshake_done = true }

abbrev small_node : Node
small_node = record {
  peers = (text "a", shaken) ∷ (text "b", new_peer (text "b") 1) ∷ [];
  known_blocks = [];
  known_txs = [];
}

connect_to_peer-bounded_example :
    length (connect_to_peer true (text "c") (text "c") 1 small_node).1.peers ≤ 8
connect_to_peer-bounded_example =
    connect_to_peer-bounded true (text "c") (text "c") 1 small_node (omega arith)

abbrev no_memory : Memory Json
no_memory = record { kv_store = []; mempool = []; session_log = [] }

abbrev row : PoolRow Json
row = record { tx_json = Json.null; fee_satoshis = pos 3 }

abbrev pool : Memory Json
pool = record no_memory { mempool = (text "a", row) ∷ (text "b", row) ∷ [] }

by_fee-IsByFee_example : IsByFee (by_fee pool.mempool)
by_fee-IsByFee_example = by_fee-IsByFee pool.mempool

tried_ten :
    try_nonce zero_sha
      (bits_to_target 0x1d00ffff)
      (record first_block { header = record first_block.header { nonce = 10 } })
    ≡ ok (true, replicate 64 48)
unfolding try_nonce header_hash serialize sha256d hex from_hex int_hex pack le_bytes bits_to_target
    below_target
tried_ten = refl

search_nonce_complete_example :
    let found = record (with_nonce zero_sha first_block 10) { block_hash = replicate 64 48 } in
    (search_nonce zero_sha
        (refresh zero_sha (λ n. 1000))
        (bits_to_target 0x1d00ffff)
        5
        10
        first_block
      ≡ ok (some found))
    × IsHit zero_sha (bits_to_target 0x1d00ffff) found
search_nonce_complete_example =
    search_nonce_complete zero_sha (refresh zero_sha (λ n. 1000)) (bits_to_target 0x1d00ffff) 5 0 10
      first_block (replicate 64 48) (omega arith) (λ j below. absurd (omega (arith, below)))
      tried_ten

-- No hash is below the target zero.
two_missed :
    search_nonce zero_sha (refresh zero_sha (λ n. 1000)) (whole 0) 2 10 first_block ≡ ok none
unfolding search_nonce try_nonce header_hash serialize sha256d hex from_hex int_hex pack le_bytes
    below_target
two_missed = refl

search_nonce_exhausted_example :
    AllMiss zero_sha (refresh zero_sha (λ n. 1000)) (whole 0) 2 10 first_block
search_nonce_exhausted_example =
    search_nonce_exhausted zero_sha (refresh zero_sha (λ n. 1000)) (whole 0) 2 10 first_block
      two_missed

hi_sent : (message : Bytes) × (build_message zero_sha (text "hi") (1 ∷ []) ≡ ok message)
hi_sent =
    let (message, built, read) =
      parse_message-build_message zero_sha digest_width (text "hi") (1 ∷ []) [] hi-IsCommand
        (omega arith) in
    (message, built)

hi-IsStream :
    IsStream zero_sha digest_width ((text "hi", 1 ∷ []) ∷ []) (7 ∷ []) (hi_sent.0 ++ 7 ∷ [])
unfolding IsStream
hi-IsStream = (hi_sent.0, 7 ∷ [], hi_sent.1, refl, refl)

hi_sendable : AreSendable zero_sha digest_width ((text "hi", 1 ∷ []) ∷ [])
unfolding AreSendable
hi_sendable = (hi-IsCommand, omega arith, tt)

incomplete : parse_message zero_sha (7 ∷ []) ≡ none
unfolding parse_message
incomplete = refl

read_messages-stream_example :
    read_messages zero_sha (hi_sent.0 ++ 7 ∷ []) ≡ ((text "hi", 1 ∷ []) ∷ [], 7 ∷ [])
read_messages-stream_example =
    read_messages-stream zero_sha digest_width ((text "hi", 1 ∷ []) ∷ []) (7 ∷ [])
      (hi_sent.0 ++ 7 ∷ []) hi_sendable hi-IsStream incomplete
