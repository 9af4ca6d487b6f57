-- ===== src/Tests/Runs.antt =====
-- Runs of the agent, of the node and of the tools at concrete values.
use bitchchain.Base.{◌≡◌, refl, true, some, [], ◌∷◌, text, pos, text_beq}
use bitchchain.Base.{Bytes, Bool, Text, Result, err, value_error, ◌++◌}
use bitchchain.Base.{List, take, drop, length, ◌≤◌, arith}
use bitchchain.Wire.{message_max_size, read_messages}
use bitchchain.Node.{done, drop_peer}
use bitchchain.Node.Loop.{handle_all, peer_loop}
use bitchchain.Node.Loop.Cuts.{AreFull, joined_chunks, peer_loop-cuts}
use bitchchain.Json.{Json, Fields}
use bitchchain.Base.{traverse}
use bitchchain.Memory.{Memory, PoolRow, pool_entry, get_mempool}
use bitchchain.Memory.Best.{IsBest, get_mempool-IsBest}
use bitchchain.Node.{Node, Step, handle_message, handle_connection, broadcast_block}
use bitchchain.Node.Traffic.{tells}
use bitchchain.Node.Reach.{fresh_node, began, accepted, handled, block_sent, IsQuiet, Reach-IsQuiet}
use bitchchain.Finality.{
  Checkpoint, get_checkpoint, store_validator, process_vote, add_checkpoint, equivocates, has_voted,
  get_validator, total_active_stake, target_of, count_vote, reaches_threshold,
}
use bitchchain.Finality.Votes.{IsTallied}
use bitchchain.Consensus.{register_validator, submit_vote, vote_of, reply_to}
use bitchchain.Chain.{load_tip}
use bitchchain.Orchestrator.{Agent}
use bitchchain.Orchestrator.Calls.{stake_validator, submit_finality_vote}
use bitchchain.Orchestrator.Reach.{
  empty_agent, Reach, created, staked, voted, IsFounded, Reach-checkpoint,
}
use bitchchain.Tests.{zero_sha, zero_digest, json_store}

-- An agent whose one validator voted for a block that the chain does not have.
abbrev voter : Agent json_store.Raw
voter =
    (submit_finality_vote zero_sha zero_sha json_store 7 (text "alice") [] (text "x") []
      (stake_validator zero_sha zero_sha json_store (text "alice") (pos 4_000_000_000) []
        empty_agent).1).1

voter-Reach : Reach zero_sha zero_sha json_store voter
voter-Reach =
    voted 7 (text "alice") [] (text "x") [] (staked (text "alice") (pos 4_000_000_000) [] created)

abbrev voted_for : Checkpoint
voted_for = record {
  block_hash = text "x";
  height = pos 0;
  total_stake_voted = 4_000_000_000;
  votes =
      record {
        validator_address = text "alice";
        source_checkpoint = [];
        target_checkpoint = text "x";
        stake_weight = 4_000_000_000;
        signature = [];
        timestamp = 7;
      }
      ∷ [];
  is_finalized = true;
  finalized_at = some 7;
}

found_it : get_checkpoint (text "x") voter.registry ≡ some voted_for
unfolding get_checkpoint submit_finality_vote stake_validator submit_vote get_validator
    register_validator store_validator load_tip text_beq vote_of total_active_stake process_vote
    equivocates target_of has_voted add_checkpoint count_vote reaches_threshold reply_to
found_it = refl

Reach-checkpoint_example :
    IsTallied voted_for × IsFounded zero_sha zero_sha json_store voter.chain (text "x") voted_for
Reach-checkpoint_example =
    Reach-checkpoint zero_sha zero_sha json_store voter (text "x") voted_for (λ b. refl) voter-Reach
      found_it

abbrev json_text : Json → Bytes
json_text j = []

abbrev no_json : Bytes → Result Json
no_json bytes = err value_error

abbrev all_work : Text → Bool
all_work k = true

-- A node that shook hands with one peer and then broadcast a block twice.
abbrev met : Node
met =
    (handle_message zero_sha all_work no_json (text "p") (text "verack") []
      (handle_connection (text "p") (text "a") 1 fresh_node)).node

abbrev told : Step
told = broadcast_block zero_sha all_work json_text zero_digest Json.null met

abbrev told_again : Step
told_again = broadcast_block zero_sha all_work json_text zero_digest Json.null told.node

Reach-IsQuiet_example :
    IsQuiet zero_sha no_json json_text told_again.node
      (([] ++ tells zero_digest told.events) ++ tells zero_digest told_again.events)
      []
Reach-IsQuiet_example =
    Reach-IsQuiet zero_sha no_json json_text told_again.node
      (([] ++ tells zero_digest told.events) ++ tells zero_digest told_again.events) []
      (block_sent all_work zero_digest Json.null (
        block_sent all_work zero_digest Json.null (
          handled all_work (text "p") (text "verack") [] (accepted (text "p") (text "a") 1 began))))

-- A "verack" with its checksum under a digest that is always zero, cut in two.
abbrev verack : Bytes
verack =
    188 ∷ 193 ∷ 66 ∷ 33 ∷ 118 ∷ 101 ∷ 114 ∷ 97 ∷ 99 ∷ 107 ∷ 0 ∷ 0 ∷ 0 ∷ 0 ∷ 0 ∷ 0 ∷ 0 ∷ 0 ∷ 0 ∷ 0
    ∷ 0 ∷ 0 ∷ 0 ∷ 0 ∷ []

abbrev two_chunks : List Bytes
two_chunks = take 10 verack ∷ drop 10 verack ∷ []

two_chunks_short : length (joined_chunks two_chunks) ≤ message_max_size
unfolding joined_chunks
two_chunks_short = omega arith

peer_loop-cuts_example :
    let handled =
      handle_all zero_sha all_work no_json
        (text "p")
        (read_messages zero_sha (joined_chunks two_chunks)).0
        met in
    peer_loop zero_sha all_work no_json (text "p") two_chunks met
    ≡ done (drop_peer (text "p") handled.node) handled.events
unfolding AreFull
peer_loop-cuts_example =
    peer_loop-cuts zero_sha all_work no_json (text "p") two_chunks met (refl, (refl, tt))
      two_chunks_short

abbrev two_pending : Memory json_store.Raw
two_pending = record {
  kv_store = [];
  mempool =
      (text "a", record { tx_json = Json.obj Fields.end; fee_satoshis = pos 1 })
      ∷ (text "b", record { tx_json = Json.obj Fields.end; fee_satoshis = pos 5 })
      ∷ [];
  session_log = [];
}

get_mempool-IsBest_example :
    (kept : List (Text × PoolRow json_store.Raw)) × IsBest json_store 1 two_pending kept
    × (get_mempool json_store 1 two_pending ≡ traverse (pool_entry json_store) kept)
get_mempool-IsBest_example = get_mempool-IsBest json_store 1 two_pending
