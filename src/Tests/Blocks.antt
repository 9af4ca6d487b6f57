-- ===== src/Tests/Blocks.antt =====
-- Blocks, transactions and unspent outputs at concrete values.
use bitchchain.Base.{
  traverse, arith, Option, text_beq, [], ◌∷◌, none, some, true, false, ok, refl, ◌≡◌, Bytes,
  reverse, hex, from_hex, int_hex, from_be, pack, le_bytes,
}
use bitchchain.Pow.{bits_to_target, below_target}
use bitchchain.Tx.{Block, pack_i64, serialize, sha256d, compute_txid, header_hash, meets_target}
use bitchchain.Tx.Dict.{block_of_dict, block_to_dict, block_of_dict-block_to_dict}
use bitchchain.Tx.Merkle.{
  last, hash_pairs, merkle_level, merkle_loop, merkle_fold, compute_merkle_root,
}
use bitchchain.Utxo.{add_from, add_outputs, spend_input}
use bitchchain.Chain.{
  Chain, valid, load_tip, spend_all, apply_tx, apply_txs, late_checks, compare_root, fill_txid,
  check_transactions, get_block, measured_size, tip_block, block_row, connect_block, conclude,
  check_size, validate_block, apply_block,
}
use bitchchain.Chain.Accept.{IsAcceptable, validate_block_iff}
use bitchchain.Chain.Apply.{
  ReadsBack, Extends, Untouched, apply_block-accepted, apply_block-refused,
}
use bitchchain.Chain.Invariant.{
  created, applied, Reach, get_block-IsSound, load_tip-restores, IsSound,
}
use bitchchain.Tx.Merkle.{txid_bytes}
use bitchchain.Tx.Merkle.Rounds.{IsRoot, compute_merkle_root-IsRoot}
use bitchchain.Tx.Merkle.Duplicates.{compute_merkle_root-repeat}
use bitchchain.Tests.{
  zero_sha, json_store, reward, first_block, first_checked, bad_block, bad_checked, spender,
  zero_digest,
}

abbrev empty_chain : Chain json_store.Raw
unfolding load_tip
empty_chain = load_tip [] [] none

validated : validate_block zero_sha json_store 0 first_block none ≡ ok (valid, first_checked)
unfolding validate_block header_hash meets_target serialize sha256d hex from_hex int_hex pack
    le_bytes from_be bits_to_target below_target check_size measured_size check_transactions
    fill_txid compare_root late_checks compute_merkle_root merkle_fold merkle_loop merkle_level
    hash_pairs last compute_txid pack_i64 text_beq
validated = refl

abbrev grown : Chain json_store.Raw
grown = (connect_block json_store first_checked empty_chain).1

first_applied :
    apply_block zero_sha json_store 0 first_block empty_chain ≡ ok (true, first_checked, grown)
unfolding apply_block conclude tip_block connect_block apply_txs apply_tx spend_all add_outputs
    add_from block_row load_tip get_block
first_applied = rw (validated, apply_block) refl

validate_block_iff_example : IsAcceptable zero_sha json_store 0 first_block none first_checked
validate_block_iff_example =
    (validate_block_iff zero_sha json_store 0 first_block none first_checked).0 validated

block_of_dict_reads : ReadsBack json_store
block_of_dict_reads b = refl

apply_block-accepted_example :
    (prev : Option Block) × (tip_block json_store empty_chain ≡ ok prev)
    × IsAcceptable zero_sha json_store 0 first_block prev first_checked
    × Extends json_store empty_chain first_checked grown
    × (get_block json_store grown zero_digest ≡ ok (some first_checked))
apply_block-accepted_example =
    apply_block-accepted zero_sha json_store 0 first_block first_checked empty_chain grown
      block_of_dict_reads first_applied

bad_validated : validate_block zero_sha json_store 0 bad_block none ≡ ok (valid, bad_checked)
unfolding validate_block header_hash meets_target serialize sha256d hex from_hex int_hex pack
    le_bytes from_be bits_to_target below_target check_size measured_size check_transactions
    fill_txid compare_root late_checks compute_merkle_root merkle_fold merkle_loop merkle_level
    hash_pairs last compute_txid pack_i64 text_beq
bad_validated = refl

abbrev leaked : Chain json_store.Raw
leaked = (connect_block json_store bad_checked empty_chain).1

bad_refused :
    apply_block zero_sha json_store 0 bad_block empty_chain ≡ ok (false, bad_checked, leaked)
unfolding apply_block conclude tip_block connect_block apply_txs apply_tx spend_all add_outputs
    add_from block_row load_tip get_block spend_input text_beq
bad_refused = rw (bad_validated, apply_block) refl

apply_block-refused_example : Untouched json_store empty_chain leaked
apply_block-refused_example =
    apply_block-refused zero_sha json_store 0 bad_block bad_checked empty_chain leaked bad_refused

first_reached : Reach zero_sha json_store grown
unfolding load_tip empty_chain
first_reached = applied 0 first_block first_checked true created first_applied

load_tip-restores_example : load_tip grown.utxo_set.committed grown.blocks grown.meta_tip ≡ grown
unfolding load_tip empty_chain
load_tip-restores_example =
    load_tip-restores zero_sha json_store 0 first_block first_checked empty_chain grown
      block_of_dict_reads created first_applied

first_found : get_block json_store grown zero_digest ≡ ok (some first_checked)
first_found =
    (apply_block-accepted zero_sha json_store 0 first_block first_checked empty_chain grown
      block_of_dict_reads first_applied).4

get_block-IsSound_example : IsSound zero_sha json_store zero_digest first_checked
get_block-IsSound_example =
    get_block-IsSound zero_sha json_store grown zero_digest first_checked block_of_dict_reads
      first_reached first_found

block_of_dict-block_to_dict_example : block_of_dict (block_to_dict first_checked) ≡ ok first_checked
block_of_dict-block_to_dict_example = block_of_dict-block_to_dict first_checked

three_ids :
    traverse (txid_bytes zero_sha) (reward ∷ reward ∷ spender ∷ [])
    ≡ ok ((170 ∷ []) ∷ (170 ∷ []) ∷ (204 ∷ []) ∷ [])
unfolding from_hex hex
three_ids = refl

compute_merkle_root-IsRoot_example :
    (root : Bytes) × IsRoot zero_sha ((170 ∷ []) ∷ (170 ∷ []) ∷ (204 ∷ []) ∷ []) root
    × (compute_merkle_root zero_sha (reward ∷ reward ∷ spender ∷ []) ≡ ok (hex (reverse root)))
compute_merkle_root-IsRoot_example =
    compute_merkle_root-IsRoot zero_sha reward (reward ∷ spender ∷ [])
      ((170 ∷ []) ∷ (170 ∷ []) ∷ (204 ∷ []) ∷ []) three_ids

compute_merkle_root-repeat_example :
    compute_merkle_root zero_sha (reward ∷ reward ∷ spender ∷ spender ∷ [])
    ≡ compute_merkle_root zero_sha (reward ∷ reward ∷ spender ∷ [])
unfolding last
compute_merkle_root-repeat_example =
    compute_merkle_root-repeat zero_sha reward (reward ∷ spender ∷ [])
      ((170 ∷ []) ∷ (170 ∷ []) ∷ (204 ∷ []) ∷ []) refl (omega arith) three_ids
