-- ===== src/Chain/Invariant.antt =====
-- The states that a chain can reach from an empty database by `apply_block` and restarts, and what
-- holds in all of them.
use bitchchain.Base.{
  ℕ, ◌≤◌, ◌≡◌, refl, sym, ap, ◌∙◌, inl, inr, Bool, true, false, Option, none, some, [], Text, Bytes,
  ℤ, negsuc, text_beq, text_beq_iff, text_eq, arith, Bool-cases, Option-cases, ok, Table, select,
  replace, select-replace, beq_refl, IsKeyed,
}
use mathlib.Core.Path.{subst}
use bitchchain.Json.{Codec}
use bitchchain.Tx.{Block, header_hash, meets_target}
use bitchchain.Tx.Merkle.{compute_merkle_root}
use bitchchain.Utxo.{Utxos, all_committed, outpoint_eq}
use bitchchain.Utxo.Spending.{IsKeyedSet, IsCommitted}
use bitchchain.Chain.{
  Chain, BlockRow, load_tip, get_block, block_row, apply_block, max_block_size_bytes,
}
use bitchchain.Chain.Accept.{IsAcceptable, BeginsWithCoinbase}
use bitchchain.Chain.Committed.{apply_txs-IsKeyedSet, block-IsCommitted}
use bitchchain.Chain.Apply.{
  ReadsBack, Extends, Untouched, apply_block-accepted, apply_block-refused, apply_block-utxos,
  get_block-of_row,
}

-- The height that a restart takes from the database.
abbrev stored_height : {Raw : Type 0} → Table Text (BlockRow Raw) → Option Text → ℤ
stored_height blocks none = negsuc 0
stored_height blocks (some tip) = elim (select tip blocks) [
  | none ↦ negsuc 0
  | some row ↦ row.height
]

load_tip-eq :
    {Raw : Type 0} (utxos : Utxos) (blocks : Table Text (BlockRow Raw)) (tip : Option Text)
    → load_tip utxos blocks tip ≡ record {
      utxo_set = all_committed utxos;
      blocks = blocks;
      meta_tip = tip;
      chain_tip = tip;
      height = stored_height blocks tip;
    }
unfolding load_tip
load_tip-eq utxos blocks none = refl
load_tip-eq utxos blocks (some tip) = refl

-- The tip in memory is the saved one, and so is the height.
pub record IsSaved {Raw : Type 0} (c : Chain Raw) : Type 0 where
  pub tip : c.chain_tip ≡ c.meta_tip
  pub high : c.height ≡ stored_height c.blocks c.meta_tip

-- What a new process finds: the blocks, the tip and the height of the old one, and the unspent outputs
-- that are committed.
abbrev pub reopen : {Raw : Type 0} → Chain Raw → Chain Raw
reopen c = load_tip c.utxo_set.committed c.blocks c.meta_tip

reopened_lem :
    {Raw : Type 0} (c : Chain Raw)
    → IsSaved c
    → reopen c ≡ record c { utxo_set = all_committed c.utxo_set.committed }
reopened_lem c s = load_tip-eq c.utxo_set.committed c.blocks c.meta_tip ∙ ground arith

module _ (sha256 : Bytes → Bytes) (codec : Codec) where
  open codec use {Raw}

  -- Reachable from an empty database by blocks, accepted or not, and by restarts.
  pub data Reach : Chain Raw → Type 0 where
    created : Reach (load_tip [] [] none)
    applied :
        {c after : Chain Raw} (now : ℕ) (block checked : Block) (answer : Bool)
        → Reach c
        → apply_block sha256 codec now block c ≡ ok (answer, checked, after)
        → Reach after
    reopened : {c : Chain Raw} → Reach c → Reach (reopen c)

  -- What every stored block satisfies on its own.
  pub record IsSound (hash : Text) (b : Block) : Type 0 where
    pub keyed : b.block_hash ≡ hash
    pub hashed : header_hash sha256 b.header ≡ ok hash
    pub worked : meets_target sha256 b.header ≡ ok true
    pub small : b.size_bytes ≤ max_block_size_bytes
    pub rooted : compute_merkle_root sha256 b.transactions ≡ ok b.header.merkle_root
    pub rewarded : BeginsWithCoinbase b.transactions

  abbrev StoresSound : Table Text (BlockRow Raw) → Type 0
  StoresSound blocks =
      (hash : Text) (row : BlockRow Raw)
      → select hash blocks ≡ some row
      → (b : Block) × (row ≡ block_row codec b) × IsSound hash b

  replace-StoresSound :
      (block : Block) (blocks : Table Text (BlockRow Raw))
      → IsSound block.block_hash block
      → StoresSound blocks
      → StoresSound (replace block.block_hash (block_row codec block) blocks)
  replace-StoresSound block blocks sound old hash row h =
      let law = select-replace block.block_hash hash (block_row codec block) blocks in
      elim (Bool-cases (text_beq block.block_hash hash)) [
        | inl same ↦
            let here : some (block_row codec block) ≡ some row = sym (law ∙ rw same) ∙ h in
            (
              block,
              cc here,
              subst (λ x. IsSound x block) ((text_beq_iff block.block_hash hash).0 same) sound,
            )
        | inr other ↦ old hash row (sym (law ∙ rw other) ∙ h)
      ]

  pub record IsConsistent (c : Chain Raw) : Type 0 where
    pub saved : IsSaved c
    pub sound : StoresSound c.blocks
    pub keyed : IsKeyedSet c.utxo_set

  of_acceptable :
      (now : ℕ) (block checked : Block) (prev : Option Block)
      → IsAcceptable sha256 codec now block prev checked
      → IsSound checked.block_hash checked
  of_acceptable now block checked prev a = record {
    keyed = refl;
    hashed = ap (header_hash sha256) a.same_header ∙ a.hashed;
    worked = ap (meets_target sha256) a.same_header ∙ a.worked;
    small = a.small;
    rooted = a.rooted ∙ ap (λ h. ok h.merkle_root) (sym a.same_header);
    rewarded = a.rewarded;
  }

  IsSaved-Extends :
      (c after : Chain Raw) (block : Block) → Extends codec c block after → IsSaved after
  unfolding block_row
  IsSaved-Extends c after block x =
      let row : select block.block_hash after.blocks ≡ some (block_row codec block) =
        ap (select block.block_hash) x.stored
        ∙ select-replace block.block_hash block.block_hash (block_row codec block) c.blocks
        ∙ rw (beq_refl block.block_hash) in
      record {
        tip = x.tip ∙ sym x.saved;
        high =
            x.high
            ∙ sym (
                ap (λ (o : Option (BlockRow Raw)). elim o [ none ↦ negsuc 0 | some r ↦ r.height ])
                  row)
            ∙ ap (stored_height after.blocks) (sym x.saved);
      }

  IsSaved-Untouched : (c after : Chain Raw) → Untouched codec c after → IsSaved c → IsSaved after
  IsSaved-Untouched c after u s = record {
    tip = u.tip ∙ s.tip ∙ sym u.saved;
    high =
        u.high
        ∙ s.high
        ∙ ap (λ b. stored_height b c.meta_tip) (sym u.blocks)
        ∙ ap (stored_height after.blocks) (sym u.saved);
  }

  IsKeyedSet-after :
      (now : ℕ) (block checked : Block) (answer : Bool) (c after : Chain Raw)
      → apply_block sha256 codec now block c ≡ ok (answer, checked, after)
      → IsKeyedSet c.utxo_set
      → IsKeyedSet after.utxo_set
  IsKeyedSet-after now block checked answer c after h k =
      elim (apply_block-utxos sha256 codec now block checked answer c after h) [
        | inl made ↦
            subst IsKeyedSet (sym made)
              (apply_txs-IsKeyedSet checked.header.height checked.transactions c.utxo_set k)
        | inr same ↦ subst IsKeyedSet (sym same) k
      ]

  applied-IsConsistent :
      (now : ℕ) (block checked : Block) (answer : Bool) (c after : Chain Raw)
      → ReadsBack codec
      → apply_block sha256 codec now block c ≡ ok (answer, checked, after)
      → IsConsistent c
      → IsConsistent after
  applied-IsConsistent now block checked true c after reads h i =
      let (prev, at_tip, good, x, found) =
        apply_block-accepted sha256 codec now block checked c after reads h in
      record {
        saved = IsSaved-Extends c after checked x;
        sound = subst StoresSound (sym x.stored) (
            replace-StoresSound checked c.blocks (of_acceptable now block checked prev good)
              i.sound);
        keyed = IsKeyedSet-after now block checked true c after h i.keyed;
      }
  applied-IsConsistent now block checked false c after reads h i =
      let u = apply_block-refused sha256 codec now block checked c after h in
      record {
        saved = IsSaved-Untouched c after u i.saved;
        sound = subst StoresSound (sym u.blocks) i.sound;
        keyed = IsKeyedSet-after now block checked false c after h i.keyed;
      }

  -- In every reachable state the tip and the height in memory are those of the database, every
  -- stored block is sound on its own, and no outpoint has two rows.
  pub Reach-IsConsistent : (c : Chain Raw) → ReadsBack codec → Reach c → IsConsistent c
  unfolding load_tip
  Reach-IsConsistent c reads created = record {
    saved = record { tip = refl; high = refl };
    sound = λ hash row h. absurd (cc h);
    keyed = record { seen = tt; kept = tt };
  }
  Reach-IsConsistent c reads (applied {c = before} now block checked answer r h) =
      applied-IsConsistent now block checked answer before c reads h
        (Reach-IsConsistent before reads r)
  Reach-IsConsistent c reads (reopened {c = before} r) =
      let i = Reach-IsConsistent before reads r in
      subst IsConsistent (sym (reopened_lem before i.saved)) (record {
        saved = record { tip = i.saved.tip; high = i.saved.high };
        sound = i.sound;
        keyed = record { seen = i.keyed.kept; kept = i.keyed.kept };
      })

  -- A restart at any reachable state restores the blocks, the tip and the height. Of the unspent
  -- outputs it finds those that are committed.
  pub reopen-keeps :
      (c : Chain Raw)
      → ReadsBack codec
      → Reach c
      → reopen c ≡ record c { utxo_set = all_committed c.utxo_set.committed }
  reopen-keeps c reads r = reopened_lem c (Reach-IsConsistent c reads r).saved

  -- A restart behind an accepted block, in any state that blocks, accepted or not, and restarts lead
  -- to, restores the whole chain: what is committed is every block, the tip, the height and every
  -- unspent output, also those that an earlier block wrote and left uncommitted when it failed.
  pub load_tip-restores :
      (now : ℕ) (block checked : Block) (c after : Chain Raw)
      → ReadsBack codec
      → Reach c
      → apply_block sha256 codec now block c ≡ ok (true, checked, after)
      → load_tip after.utxo_set.committed after.blocks after.meta_tip ≡ after
  load_tip-restores now block checked c after reads r h =
      let (prev, at_tip, good, x, found) =
        apply_block-accepted sha256 codec now block checked c after reads h in
      let committed : IsCommitted after.utxo_set =
        block-IsCommitted checked.header.height checked.transactions c.utxo_set after.utxo_set
          good.rewarded x.spent in
      reopen-keeps after reads (applied now block checked true r h)
      ∙ ap (λ (rows : Utxos). record after { utxo_set = all_committed rows }) committed
      ∙ ap
          (λ (kept : Utxos). record after { utxo_set = record after.utxo_set { committed = kept } })
          (sym committed)

  missed :
      (c : Chain Raw) (hash : Text) (b : Block)
      → select hash c.blocks ≡ none
      → get_block codec c hash ≡ ok (some b)
      → ⊥
  unfolding get_block
  missed c hash b absent h = ground arith

  -- Every block that `get_block` finds in a reachable state carries and hashes to the key it was
  -- asked by, meets its target, is within the size limit, has the Merkle root of its transactions and begins with a
  -- coinbase.
  pub get_block-IsSound :
      (c : Chain Raw) (hash : Text) (b : Block)
      → ReadsBack codec
      → Reach c
      → get_block codec c hash ≡ ok (some b)
      → IsSound hash b
  get_block-IsSound c hash b reads r h = elim (Option-cases (select hash c.blocks)) [
    | inl missing ↦ absurd (missed c hash b missing h)
    | inr (row, found) ↦
        let (b', written, sound) = (Reach-IsConsistent c reads r).sound hash row found in
        let same : ok (some b') ≡ ok (some b) =
          sym (get_block-of_row codec c hash b' reads (found ∙ ap some written)) ∙ h in
        subst (IsSound hash) (cc same) sound
  ]

  -- In a reachable state no outpoint has two rows.
  pub Reach-IsKeyed : (c : Chain Raw) → ReadsBack codec → Reach c → IsKeyed c.utxo_set.rows
  Reach-IsKeyed c reads r = (Reach-IsConsistent c reads r).keyed.seen
