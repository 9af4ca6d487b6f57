-- ===== src/Chain/Accept.antt =====
-- What a block has to satisfy for `validate_block` to accept it.
use bitchchain.Base.{
  ℕ, ◌+◌, ◌≤◌, ◌≡◌, refl, ap, ◌∙◌, ◌↔◌, inl, inr, Bool, true, false, Option, none, some, List, [],
  ◌∷◌, Text, Bytes, text_beq, text_beq_iff, ltb, leb, arith, Bool-cases, ok, ◌>>=◌, >>=-eq-ok,
  traverse, leb→le, le→leb,
}
use mathlib.Core.Path.{subst}
use bitchchain.Json.{Codec}
use bitchchain.Tx.{Transaction, BlockHeader, Block, header_hash, meets_target}
use bitchchain.Tx.Merkle.{compute_merkle_root}
use bitchchain.Chain.{
  valid, lacks_coinbase, prev_differs, late_checks, check_transactions, check_size, compare_root,
  validate_block, measured_size, fill_txid, max_block_size_bytes,
}

-- The block names the tip as its predecessor; on an empty chain any predecessor will do.
abbrev pub FollowsTip : BlockHeader → Option Block → Type 0
FollowsTip header none = Unit
FollowsTip header (some prev) = header.prev_hash ≡ prev.block_hash

abbrev pub BeginsWithCoinbase : List Transaction → Type 0
BeginsWithCoinbase [] = ⊥
BeginsWithCoinbase (tx ∷ txs) = tx.is_coinbase ≡ true

follows_iff :
    (h : BlockHeader) (prev : Option Block) → (prev_differs h prev ≡ false) ↔ FollowsTip h prev
follows_iff h none = (λ e. tt, λ f. refl)
follows_iff h (some prev) = ground (arith, text_beq_iff h.prev_hash prev.block_hash)

coinbase_iff : (txs : List Transaction) → (lacks_coinbase txs ≡ false) ↔ BeginsWithCoinbase txs
coinbase_iff [] = ground arith
coinbase_iff (tx ∷ txs) = ground arith

late_checks-valid :
    (now : ℕ) (b : Block) (prev : Option Block)
    → late_checks now b prev ≡ valid
    → (b.header.timestamp ≤ now + 7200)
      × FollowsTip b.header prev
      × BeginsWithCoinbase b.transactions
unfolding late_checks
late_checks-valid now b prev h = (
  ground arith,
  (follows_iff b.header prev).0 (ground arith),
  (coinbase_iff b.transactions).0 (ground arith),
)

valid-late_checks :
    (now : ℕ) (b : Block) (prev : Option Block)
    → b.header.timestamp ≤ now + 7200
    → FollowsTip b.header prev
    → BeginsWithCoinbase b.transactions
    → late_checks now b prev ≡ valid
unfolding late_checks
valid-late_checks now b prev t f c =
    let early : ltb (now + 7200) b.header.timestamp ≡ false = ground arith in
    rw (early, (follows_iff b.header prev).1 f, (coinbase_iff b.transactions).1 c)

module _ (sha256 : Bytes → Bytes) (codec : Codec) where
  -- The block `block` is acceptable behind `prev`, and `checked` is `block` with its hash, its
  -- size and the missing transaction ids filled in.
  pub record IsAcceptable (now : ℕ) (block : Block) (prev : Option Block) (checked : Block)
      : Type 0 where
    pub same_header : checked.header ≡ block.header
    pub hashed : header_hash sha256 block.header ≡ ok checked.block_hash
    pub worked : meets_target sha256 block.header ≡ ok true
    pub measured : checked.size_bytes ≡ measured_size codec block.transactions
    pub small : checked.size_bytes ≤ max_block_size_bytes
    pub named : traverse (fill_txid sha256) block.transactions ≡ ok checked.transactions
    pub rooted : compute_merkle_root sha256 checked.transactions ≡ ok block.header.merkle_root
    pub in_time : block.header.timestamp ≤ now + 7200
    pub follows : FollowsTip block.header prev
    pub rewarded : BeginsWithCoinbase checked.transactions

  sized : Block → Text → Block
  sized block hash = record block {
    block_hash = hash;
    size_bytes = measured_size codec block.transactions;
  }

  compared :
      (now : ℕ) (b : Block) (prev : Option Block) (txs : List Transaction) (root : Text)
      (checked : Block)
      → compare_root now b prev txs root ≡ (valid, checked)
      → (root ≡ b.header.merkle_root)
        × (late_checks now (record b { transactions = txs }) prev ≡ valid)
        × (record b { transactions = txs } ≡ checked)
  unfolding compare_root
  compared now b prev txs root checked h = elim (Bool-cases (text_beq root b.header.merkle_root)) [
    | inl same ↦ (
      (text_beq_iff root b.header.merkle_root).0 same,
      ap (λ p. p.0) (rw same at h),
      ap (λ p. p.1) h,
    )
    | inr other ↦ absurd (cc (rw other at h))
  ]

  of_transactions :
      (now : ℕ) (block : Block) (prev : Option Block) (hash : Text) (checked : Block)
      → header_hash sha256 block.header ≡ ok hash
      → meets_target sha256 block.header ≡ ok true
      → measured_size codec block.transactions ≤ max_block_size_bytes
      → check_transactions sha256 now (sized block hash) prev ≡ ok (valid, checked)
      → IsAcceptable now block prev checked
  unfolding check_transactions sized
  of_transactions now block prev hash checked e w s h =
      let (txs, filled, after) =
        >>=-eq-ok (traverse (fill_txid sha256) block.transactions)
          (λ txs. compute_merkle_root sha256 txs >>= λ root.
            ok (compare_root now (sized block hash) prev txs root))
          h in
      let (root, rooted, done) =
        >>=-eq-ok (compute_merkle_root sha256 txs)
          (λ root. ok (compare_root now (sized block hash) prev txs root)) after in
      let (same, late, whole) = compared now (sized block hash) prev txs root checked (cc done) in
      let (time, follows, coinbase) =
        late_checks-valid now (record (sized block hash) { transactions = txs }) prev late in
      subst (IsAcceptable now block prev) whole (record {
        same_header = refl;
        hashed = e;
        worked = w;
        measured = refl;
        small = s;
        named = filled;
        rooted = rooted ∙ ap ok same;
        in_time = time;
        follows = follows;
        rewarded = coinbase;
      })

  of_size :
      (now : ℕ) (block : Block) (prev : Option Block) (hash : Text) (work : Bool) (checked : Block)
      → header_hash sha256 block.header ≡ ok hash
      → meets_target sha256 block.header ≡ ok work
      → check_size sha256 codec now block prev hash work ≡ ok (valid, checked)
      → IsAcceptable now block prev checked
  unfolding check_size sized
  of_size now block prev hash false checked e w h = absurd (cc h)
  of_size now block prev hash true checked e w h =
      elim (Bool-cases (leb (measured_size codec block.transactions) max_block_size_bytes)) [
        | inl small ↦
            of_transactions now block prev hash checked e w (leb→le _ _ small) (rw small at h)
        | inr large ↦ absurd (cc (rw large at h))
      ]

  accepted :
      (now : ℕ) (block : Block) (prev : Option Block) (checked : Block)
      → validate_block sha256 codec now block prev ≡ ok (valid, checked)
      → IsAcceptable now block prev checked
  unfolding validate_block
  accepted now block prev checked h =
      let (hash, hashed, after) =
        >>=-eq-ok (header_hash sha256 block.header)
          (λ hash. meets_target sha256 block.header >>= λ work.
            check_size sha256 codec now block prev hash work)
          h in
      let (work, worked, done) =
        >>=-eq-ok (meets_target sha256 block.header)
          (λ work. check_size sha256 codec now block prev hash work) after in
      of_size now block prev hash work checked hashed worked done

  refilled :
      (now : ℕ) (block : Block) (prev : Option Block) (checked : Block)
      → IsAcceptable now block prev checked
      → record (sized block checked.block_hash) { transactions = checked.transactions } ≡ checked
  unfolding sized
  refilled now block prev checked a = ground arith

  recompared :
      (now : ℕ) (block : Block) (prev : Option Block) (checked : Block)
      → IsAcceptable now block prev checked
      → compare_root now
          (sized block checked.block_hash)
          prev
          checked.transactions
          block.header.merkle_root
        ≡ (valid, checked)
  unfolding compare_root sized
  recompared now block prev checked a =
      let filled = record (sized block checked.block_hash) {
        transactions = checked.transactions;
      } in
      rw
        (
          (text_beq_iff block.header.merkle_root block.header.merkle_root).1 refl,
          valid-late_checks now filled prev a.in_time a.follows a.rewarded,
        )
        (ap (λ b. (valid, b)) (refilled now block prev checked a))

  acceptable :
      (now : ℕ) (block : Block) (prev : Option Block) (checked : Block)
      → IsAcceptable now block prev checked
      → validate_block sha256 codec now block prev ≡ ok (valid, checked)
  unfolding validate_block check_size check_transactions sized
  acceptable now block prev checked a =
      let small : leb (measured_size codec block.transactions) max_block_size_bytes ≡ true =
        le→leb _ _ (subst (λ n. n ≤ max_block_size_bytes) a.measured a.small) in
      rw (a.hashed, a.worked, small, a.named, a.rooted)
        (ap ok (recompared now block prev checked a))

  -- `validate_block` says that the block is valid exactly when it is acceptable.
  pub validate_block_iff :
      (now : ℕ) (block : Block) (prev : Option Block) (checked : Block)
      → (validate_block sha256 codec now block prev ≡ ok (valid, checked))
        ↔ IsAcceptable now block prev checked
  validate_block_iff now block prev checked =
      (accepted now block prev checked, acceptable now block prev checked)
