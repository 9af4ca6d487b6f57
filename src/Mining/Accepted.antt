-- ===== src/Mining/Accepted.antt =====
-- What the chain says to a mined block (`build_block_template` and `mine_block`,
-- agent/modules/consensus_engine.py, lines 233 to 272; `validate_block`,
-- agent/modules/blockchain_core.py, line 308).
use bitchchain.Base.{
  ℕ, ◌+◌, ◌≤◌, ◌≡◌, refl, sym, ap, ◌∙◌, Option, some, List, [], ◌∷◌, true, Text, Bytes, ok, ◌>>=◌,
  >>=-eq-ok, traverse, traverse-cons, traverse-of_parts, pos, arith, ℤ, ◌+ℤ◌,
}
use mathlib.Core.Path.{subst}
use bitchchain.Json.{Codec}
use bitchchain.Tx.{
  Transaction, BlockHeader, Block, serialize_for_signing, compute_txid, header_hash, meets_target,
}
use bitchchain.Tx.Merkle.{compute_merkle_root}
use bitchchain.Chain.{
  Chain, valid, fill_txid, measured_size, max_block_size_bytes, validate_block, get_next_bits,
}
use bitchchain.Chain.Accept.{FollowsTip, BeginsWithCoinbase, IsAcceptable, validate_block_iff}
use bitchchain.Mining.{
  build_coinbase_tx, assemble, build_block_template, template_header, select_txs, sort_txs,
  json_size, mine_template, mine_block,
}
use bitchchain.Mining.Search.{IsMinedFrom, mine_template_sound}

module _ (sha256 : Bytes → Bytes) where
  refilled :
      (tx : Transaction) (t : Text)
      → compute_txid sha256 tx ≡ ok t
      → fill_txid sha256 (record tx { txid = t }) ≡ ok (record tx { txid = t })
  unfolding fill_txid compute_txid serialize_for_signing
  refilled tx [] computed = ap (λ r. r >>= λ t. ok (record tx { txid = t })) computed
  refilled tx (c ∷ cs) computed = refl

  -- A transaction that has its id keeps it.
  fill_txid-again :
      (tx filled : Transaction)
      → fill_txid sha256 tx ≡ ok filled
      → fill_txid sha256 filled ≡ ok filled
  unfolding fill_txid
  fill_txid-again tx filled h = by_id tx.txid refl
    where
      by_id : (t : Text) → tx.txid ≡ t → fill_txid sha256 filled ≡ ok filled
      by_id [] e =
          let (t, computed, done) =
            >>=-eq-ok (compute_txid sha256 tx) (λ t. ok (record tx { txid = t }))
              (rw (fill_txid, e) at h) in
          let same : record tx { txid = t } ≡ filled = cc done in
          subst (λ f. fill_txid sha256 f ≡ ok f) same (refilled tx t computed)
      by_id (c ∷ cs) e =
          let same : tx ≡ filled = cc (rw (fill_txid, e) at h) in
          ap (fill_txid sha256) (sym same) ∙ h

  fill_all-again :
      (txs filled : List Transaction)
      → traverse (fill_txid sha256) txs ≡ ok filled
      → traverse (fill_txid sha256) filled ≡ ok filled
  fill_all-again [] filled h =
      let same : [] ≡ filled = cc h in ap (traverse (fill_txid sha256)) (sym same) ∙ h
  fill_all-again (tx ∷ txs) filled h =
      let (y, ys, first, rest, whole) = traverse-cons (fill_txid sha256) tx txs h in
      subst (λ fs. traverse (fill_txid sha256) fs ≡ ok fs) whole
        (traverse-of_parts (fill_txid sha256) y ys (fill_txid-again tx y first)
          (fill_all-again txs ys rest))

  abbrev pub finished : BlockHeader → List Transaction → Text → Block
  finished header txs root = record {
    header = record header { merkle_root = root };
    transactions = txs;
    block_hash = [];
    size_bytes = 0;
  }

  pub record IsAssembled (header : BlockHeader) (txs : List Transaction) (template : Block)
      : Type 0 where
    pub named : traverse (fill_txid sha256) txs ≡ ok template.transactions
    pub rooted : compute_merkle_root sha256 template.transactions ≡ ok template.header.merkle_root

  assemble-IsAssembled :
      (header : BlockHeader) (txs : List Transaction) (template : Block)
      → assemble sha256 header txs ≡ ok template
      → IsAssembled header txs template
  unfolding assemble
  assemble-IsAssembled header txs template h =
      let (filled, named, later) =
        >>=-eq-ok (traverse (fill_txid sha256) txs)
          (λ txs. compute_merkle_root sha256 txs >>= λ root. ok (finished header txs root)) h in
      let (root, rooted, done) =
        >>=-eq-ok (compute_merkle_root sha256 filled) (λ root. ok (finished header filled root))
          later in
      let same : finished header filled root ≡ template = cc done in
      subst (IsAssembled header txs) same (record { named = named; rooted = rooted })

module _ (sha256 : Bytes → Bytes) (codec : Codec) where
  -- A block that was mined from an assembled template, in the validation's own words.
  pub assembled-IsAcceptable :
      (now : ℕ) (header : BlockHeader) (txs : List Transaction) (template mined : Block)
      (prev : Option Block)
      → IsAssembled sha256 header txs template
      → IsMinedFrom template mined
      → header_hash sha256 mined.header ≡ ok mined.block_hash
      → meets_target sha256 mined.header ≡ ok true
      → BeginsWithCoinbase mined.transactions
      → FollowsTip mined.header prev
      → mined.header.timestamp ≤ now + 7200
      → measured_size codec mined.transactions ≤ max_block_size_bytes
      → IsAcceptable sha256 codec now mined prev
          (record mined { size_bytes = measured_size codec mined.transactions })
  assembled-IsAcceptable now header txs template mined prev a m hashed worked rewarded follows
        in_time small =
      record {
        same_header = refl;
        hashed = hashed;
        worked = worked;
        measured = refl;
        small = small;
        named =
            ap (traverse (fill_txid sha256)) m.transactions
            ∙ fill_all-again sha256 txs template.transactions a.named
            ∙ ap ok (sym m.transactions);
        rooted =
            ap (compute_merkle_root sha256) m.transactions ∙ a.rooted ∙ ap ok (sym m.merkle_root);
        in_time = in_time;
        follows = follows;
        rewarded = rewarded;
      }

  kept_mark :
      (tx filled : Transaction)
      → fill_txid sha256 tx ≡ ok filled
      → filled.is_coinbase ≡ tx.is_coinbase
  unfolding fill_txid
  kept_mark tx filled h = ground arith

  pub assembled-BeginsWithCoinbase :
      (coinbase : Transaction) (header : BlockHeader) (txs : List Transaction) (template : Block)
      → coinbase.is_coinbase ≡ true
      → IsAssembled sha256 header (coinbase ∷ txs) template
      → BeginsWithCoinbase template.transactions
  unfolding fill_txid
  assembled-BeginsWithCoinbase coinbase header txs template marked a =
      let (y, ys, first, rest, whole) = traverse-cons (fill_txid sha256) coinbase txs a.named in
      subst BeginsWithCoinbase whole (kept_mark coinbase y first ∙ marked)

module _ (sha256 ripemd160 : Bytes → Bytes) (codec : Codec) where
  open codec use {Raw}

  coinbase_mark :
      (miner_address : Bytes) (height : ℤ) (extra_nonce : ℕ) (coinbase : Transaction)
      → build_coinbase_tx sha256 ripemd160 miner_address height extra_nonce ≡ ok coinbase
      → coinbase.is_coinbase ≡ true
  unfolding build_coinbase_tx
  coinbase_mark miner_address height extra_nonce coinbase h = ground arith

  record IsTemplate (template : Block) : Type 0 where
    header : BlockHeader
    txs : List Transaction
    assembled : IsAssembled sha256 header txs template
    rewarded : BeginsWithCoinbase template.transactions

  build_block_template-IsTemplate :
      (miner_address : Bytes) (now : ℕ) (chain : Chain Raw) (mempool_txs : List Transaction)
      (template : Block)
      → build_block_template sha256 ripemd160 codec miner_address now chain mempool_txs
        ≡ ok template
      → IsTemplate template
  unfolding build_block_template
  build_block_template-IsTemplate miner_address now chain mempool_txs template h =
      let selected = select_txs (json_size sha256 ripemd160 codec) 1000 (sort_txs mempool_txs) in
      let (bits, _, later) =
        >>=-eq-ok (get_next_bits chain)
          (λ bits.
            build_coinbase_tx sha256 ripemd160 miner_address (chain.height +ℤ pos 1) 0
            >>= λ coinbase.
                assemble sha256 (template_header sha256 ripemd160 codec now chain bits)
                  (coinbase ∷ selected))
          h in
      let (coinbase, paid, built) =
        >>=-eq-ok (build_coinbase_tx sha256 ripemd160 miner_address (chain.height +ℤ pos 1) 0)
          (λ coinbase.
            assemble sha256 (template_header sha256 ripemd160 codec now chain bits)
              (coinbase ∷ selected))
          later in
      let header = template_header sha256 ripemd160 codec now chain bits in
      let made = assemble-IsAssembled sha256 header (coinbase ∷ selected) template built in
      record {
        header = header;
        txs = coinbase ∷ selected;
        assembled = made;
        rewarded =
            assembled-BeginsWithCoinbase sha256 codec coinbase header selected template
              (coinbase_mark miner_address (chain.height +ℤ pos 1) 0 coinbase paid) made;
      }

  -- A block that `mine_block` returns is valid behind every previous block that it follows, at every
  -- time that is not more than two hours behind its own, if its transactions keep to the size
  -- limit: its ids, Merkle root, hash, work and coinbase are what `validate_block` asks for.
  pub mine_block-valid :
      (miner_address : Bytes) (now later : ℕ) (clock : ℕ → ℕ) (chain : Chain Raw)
      (mempool_txs : List Transaction) (max_iterations : ℕ) (mined : Block) (prev : Option Block)
      → mine_block sha256 ripemd160 codec miner_address now clock chain mempool_txs max_iterations
        ≡ ok (some mined)
      → FollowsTip mined.header prev
      → mined.header.timestamp ≤ later + 7200
      → measured_size codec mined.transactions ≤ max_block_size_bytes
      → validate_block sha256 codec later mined prev
        ≡ ok (valid, record mined { size_bytes = measured_size codec mined.transactions })
  unfolding mine_block
  mine_block-valid miner_address now later clock chain mempool_txs max_iterations mined prev h
        follows in_time small =
      let (template, built, searched) =
        >>=-eq-ok (build_block_template sha256 ripemd160 codec miner_address now chain mempool_txs)
          (λ block. mine_template sha256 clock max_iterations block) h in
      let t = build_block_template-IsTemplate miner_address now chain mempool_txs template built in
      let (hashed, worked, m) =
        mine_template_sound sha256 clock max_iterations template mined searched in
      let checked = record mined { size_bytes = measured_size codec mined.transactions } in
      (validate_block_iff sha256 codec later mined prev checked).1 (
        assembled-IsAcceptable sha256 codec later t.header t.txs template mined prev t.assembled m
          hashed worked (subst BeginsWithCoinbase (sym m.transactions) t.rewarded) follows in_time
          small)
