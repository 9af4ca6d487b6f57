-- ===== src/Tests/Miners.antt =====
-- A block that is mined on an empty chain, and the genesis block.
use bitchchain.Base.{◌≡◌, refl, ◌≢◌, err, Option, none, some, [], text, Result, ok, arith}
use bitchchain.Base.Int.{◌+ℤ◌}
use bitchchain.Tx.{Block}
use bitchchain.Mining.{
  build_block_template, build_coinbase_tx, assemble, select_txs, sort_txs, insert_tx, mine_template,
  search_nonce, try_nonce,
}
use bitchchain.Chain.{get_next_bits, fill_txid}
use bitchchain.Pow.{compute_block_reward, below_target, bits_to_target}
use bitchchain.Base.{pack, from_hex, hex, le_bytes, int_hex, text_beq}
use bitchchain.Tx.{
  compute_txid, serialize_for_signing, concat_parts, header_hash, pack_i64, pack_script, serialize,
  serialize_input, serialize_output, sha256d,
}
use bitchchain.Tx.Merkle.{
  compute_merkle_root, hash_pairs, last, merkle_fold, merkle_level, merkle_loop,
}
use bitchchain.Chain.{Chain, valid, load_tip, measured_size, validate_block}
use bitchchain.Mining.{mine_block}
use bitchchain.Mining.Accepted.{mine_block-valid}
use bitchchain.Genesis.{genesis_template, create_genesis_block}
use bitchchain.Genesis.Accepted.{create_genesis_block-valid}
use bitchchain.Tests.{zero_sha, json_store, first_block}

abbrev empty_chain : Chain json_store.Raw
unfolding load_tip
empty_chain = load_tip [] [] none

abbrev found : Result (Option Block) → Block
found (ok (some block)) = block
found other = first_block

abbrev attempt : Result (Option Block)
attempt = mine_block zero_sha zero_sha json_store (text "m") 1000 (λ n. 1000) empty_chain [] 5

abbrev mined_first : Block
mined_first = found attempt

was_mined : attempt ≡ ok (some mined_first)
unfolding mine_block load_tip empty_chain build_block_template build_coinbase_tx assemble select_txs
    sort_txs insert_tx mine_template search_nonce try_nonce get_next_bits fill_txid
    compute_block_reward below_target bits_to_target pack from_hex hex le_bytes int_hex text_beq
    compute_txid serialize_for_signing concat_parts header_hash pack_i64 pack_script serialize
    serialize_input serialize_output sha256d compute_merkle_root hash_pairs last merkle_fold
    merkle_level merkle_loop ◌+ℤ◌
was_mined = refl

at_once : mined_first.header.timestamp ≡ 1000
unfolding mine_block load_tip empty_chain build_block_template build_coinbase_tx assemble select_txs
    sort_txs insert_tx mine_template search_nonce try_nonce get_next_bits fill_txid
    compute_block_reward below_target bits_to_target pack from_hex hex le_bytes int_hex text_beq
    compute_txid serialize_for_signing concat_parts header_hash pack_i64 pack_script serialize
    serialize_input serialize_output sha256d compute_merkle_root hash_pairs last merkle_fold
    merkle_level merkle_loop ◌+ℤ◌
at_once = refl

small : measured_size json_store mined_first.transactions ≡ 100
unfolding measured_size
small = refl

mine_block-valid_example :
    validate_block zero_sha json_store 1000 mined_first none
    ≡ ok (
      valid,
      record mined_first { size_bytes = measured_size json_store mined_first.transactions },
    )
mine_block-valid_example =
    mine_block-valid zero_sha zero_sha json_store (text "m") 1000 1000 (λ n. 1000) empty_chain [] 5
      mined_first none was_mined tt (omega (arith, at_once)) (omega (arith, small))

abbrev made : Result Block → Block
made (ok block) = block
made (err e) = first_block

abbrev genesis_made : Block
genesis_made = made (create_genesis_block zero_sha)

was_created : create_genesis_block zero_sha ≡ ok genesis_made
unfolding create_genesis_block genesis_template build_block_template build_coinbase_tx assemble
    select_txs sort_txs insert_tx mine_template search_nonce try_nonce get_next_bits fill_txid
    compute_block_reward below_target bits_to_target pack from_hex hex le_bytes int_hex text_beq
    compute_txid serialize_for_signing concat_parts header_hash pack_i64 pack_script serialize
    serialize_input serialize_output sha256d compute_merkle_root hash_pairs last merkle_fold
    merkle_level merkle_loop ◌+ℤ◌
was_created = refl

genesis_named : genesis_made.block_hash ≢ []
unfolding create_genesis_block genesis_template build_block_template build_coinbase_tx assemble
    select_txs sort_txs insert_tx mine_template search_nonce try_nonce get_next_bits fill_txid
    compute_block_reward below_target bits_to_target pack from_hex hex le_bytes int_hex text_beq
    compute_txid serialize_for_signing concat_parts header_hash pack_i64 pack_script serialize
    serialize_input serialize_output sha256d compute_merkle_root hash_pairs last merkle_fold
    merkle_level merkle_loop ◌+ℤ◌
genesis_named h = absurd (cc h)

genesis_time : genesis_made.header.timestamp ≡ 1_717_833_600
unfolding create_genesis_block genesis_template build_block_template build_coinbase_tx assemble
    select_txs sort_txs insert_tx mine_template search_nonce try_nonce get_next_bits fill_txid
    compute_block_reward below_target bits_to_target pack from_hex hex le_bytes int_hex text_beq
    compute_txid serialize_for_signing concat_parts header_hash pack_i64 pack_script serialize
    serialize_input serialize_output sha256d compute_merkle_root hash_pairs last merkle_fold
    merkle_level merkle_loop ◌+ℤ◌
genesis_time = refl

genesis_small : measured_size json_store genesis_made.transactions ≡ 100
unfolding measured_size
genesis_small = refl

create_genesis_block-valid_example :
    validate_block zero_sha json_store 1_717_833_600 genesis_made none
    ≡ ok (
      valid,
      record genesis_made { size_bytes = measured_size json_store genesis_made.transactions },
    )
create_genesis_block-valid_example =
    create_genesis_block-valid zero_sha json_store 1_717_833_600 genesis_made was_created
      genesis_named (omega (arith, genesis_time)) (omega (arith, genesis_small))
