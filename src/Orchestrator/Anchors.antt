-- ===== src/Orchestrator/Anchors.antt =====
-- The checkpoints of the registry against the stored blocks: what a vote, a registration and an
-- applied block do to them (agent/modules/consensus_engine.py, lines 300 to 348).
use bitchchain.Base.{
  ℕ, ◌≡◌, refl, sym, ap, ◌∙◌, ◌⊎◌, inl, inr, Bool, true, false, some, Text, Bytes, pos, text_beq,
  text_beq_iff, text_eq, arith, Bool-cases, Option-cases, ok, Table, select, replace, contains,
  contains-select, select-replace, beq_refl,
}
use mathlib.Core.Path.{subst}
use bitchchain.Json.{Codec}
use bitchchain.Tx.{Block}
use bitchchain.Chain.{Chain, BlockRow, block_row, apply_block}
use bitchchain.Chain.Apply.{Extends, apply_block-Extends, apply_block-refused}
use bitchchain.Finality.{
  FinalityVote, Checkpoint, Registry, slash_validator, add_checkpoint, fresh_checkpoint, count_vote,
  target_of, process_vote,
}
use bitchchain.Finality.Votes.{
  AllTallied, process_vote-Outcome, equivocated, duplicate, counted, target-IsTallied,
}
use bitchchain.Consensus.{Reply, is_checkpoint_height, open_checkpoint, submit_vote, weighted}
use bitchchain.Consensus.Finalizing.{submit_vote-parts}

-- Every checkpoint of another height than 0 has a height at which checkpoints are opened, and names
-- a block that is stored.
abbrev pub IsAnchored : {Raw : Type 0} → Table Text (BlockRow Raw) → Table Text Checkpoint → Type 0
IsAnchored blocks checkpoints =
    (hash : Text) (c : Checkpoint)
    → select hash checkpoints ≡ some c
    → (c.height ≡ pos 0) ⊎ ((is_checkpoint_height c.height ≡ true) × (contains hash blocks ≡ true))

-- Each checkpoint afterwards is at height 0, or was there before at its height.
abbrev KeepsHeights : Table Text Checkpoint → Table Text Checkpoint → Type 0
KeepsHeights before after =
    (hash : Text) (c : Checkpoint)
    → select hash after ≡ some c
    → (c.height ≡ pos 0)
      ⊎ ((old : Checkpoint) × (select hash before ≡ some old) × (c.height ≡ old.height))

pub KeepsHeights-IsAnchored :
    {Raw : Type 0} (blocks : Table Text (BlockRow Raw)) (before after : Table Text Checkpoint)
    → KeepsHeights before after
    → IsAnchored blocks before
    → IsAnchored blocks after
KeepsHeights-IsAnchored blocks before after keeps anchored hash c h = elim (keeps hash c h) [
  | inl low ↦ inl low
  | inr (old, found, same) ↦ elim (anchored hash old found) [
    | inl low ↦ inl (same ∙ low)
    | inr (high, stored) ↦ inr (ap is_checkpoint_height same ∙ high, stored)
  ]
]

kept : (t : Table Text Checkpoint) → KeepsHeights t t
kept t hash c h = inr (c, h, refl)

module _ (now : ℕ) (vote : FinalityVote) (total : ℕ) (reg : Registry) where
  tallied-height :
      (count_vote now vote total (target_of vote reg)).height ≡ (target_of vote reg).height
  unfolding count_vote
  tallied-height = ground arith

  target-height :
      ((target_of vote reg).height ≡ pos 0)
      ⊎ ((old : Checkpoint) × (select vote.target_checkpoint reg.checkpoints ≡ some old)
          × ((target_of vote reg).height ≡ old.height))
  unfolding target_of
  target-height = elim (Option-cases (select vote.target_checkpoint reg.checkpoints)) [
    | inl absent ↦ inl (ground arith)
    | inr (c, found) ↦ inr (c, found, ground arith)
  ]

  tallied-hash :
      AllTallied reg.checkpoints
      → (count_vote now vote total (target_of vote reg)).block_hash ≡ vote.target_checkpoint
  unfolding count_vote
  tallied-hash all = ground (arith, (target-IsTallied now vote total reg all).0)

  replace-KeepsHeights :
      AllTallied reg.checkpoints
      → let c = count_vote now vote total (target_of vote reg) in
        KeepsHeights reg.checkpoints (replace c.block_hash c reg.checkpoints)
  replace-KeepsHeights all hash c h =
      let tallied = count_vote now vote total (target_of vote reg) in
      let law = select-replace tallied.block_hash hash tallied reg.checkpoints in
      elim (Bool-cases (text_beq tallied.block_hash hash)) [
        | inr other ↦ inr (c, sym (law ∙ rw other) ∙ h, refl)
        | inl same ↦
            let here : some tallied ≡ some c = sym (law ∙ rw same) ∙ h in
            let same_row : tallied ≡ c = cc here in
            let high : c.height ≡ (target_of vote reg).height =
              ap (λ (x : Checkpoint). x.height) (sym same_row) ∙ tallied-height in
            let at : vote.target_checkpoint ≡ hash =
              sym (tallied-hash all) ∙ (text_beq_iff tallied.block_hash hash).0 same in
            elim target-height [
              | inl low ↦ inl (high ∙ low)
              | inr (old, found, level) ↦
                  inr (old, subst (λ k. select k reg.checkpoints ≡ some old) at found, high ∙ level)
            ]
      ]

  process_vote-KeepsHeights :
      (answer : Bool) (after : Registry)
      → AllTallied reg.checkpoints
      → process_vote now vote total reg ≡ ok (answer, after)
      → KeepsHeights reg.checkpoints after.checkpoints
  unfolding slash_validator
  process_vote-KeepsHeights answer after all h =
      elim (process_vote-Outcome now vote total reg answer after h) [
        | equivocated e a same ↦
            subst (λ (r : Registry). KeepsHeights reg.checkpoints r.checkpoints) (sym same)
              (kept reg.checkpoints)
        | duplicate e d a same ↦
            subst (λ (r : Registry). KeepsHeights reg.checkpoints r.checkpoints) (sym same)
              (kept reg.checkpoints)
        | counted new a v stored ↦
            subst (KeepsHeights reg.checkpoints) (sym stored) (replace-KeepsHeights all)
      ]

pub submit_vote-KeepsHeights :
    (now : ℕ) (vote : FinalityVote) (reg after : Registry) (reply : Bool × Reply)
    → AllTallied reg.checkpoints
    → submit_vote now vote reg ≡ ok (reply, after)
    → KeepsHeights reg.checkpoints after.checkpoints
submit_vote-KeepsHeights now vote reg after reply all h =
    elim (submit_vote-parts now vote reg after reply h) [
      | inl same ↦
          subst (λ (r : Registry). KeepsHeights reg.checkpoints r.checkpoints) same
            (kept reg.checkpoints)
      | inr (v, total, answer, processed) ↦
          process_vote-KeepsHeights now (weighted vote v) total reg answer after all processed
    ]

-- A checkpoint that is opened stands under the block's hash, at the block's height; all others are
-- as they were.
open_checkpoint-select :
    (block : Block) (reg after : Registry) (hash : Text) (c : Checkpoint)
    → open_checkpoint block reg ≡ ok after
    → select hash after.checkpoints ≡ some c
    → (select hash reg.checkpoints ≡ some c)
      ⊎ ((block.block_hash ≡ hash) × (is_checkpoint_height c.height ≡ true))
unfolding open_checkpoint add_checkpoint
open_checkpoint-select block reg after hash c h found =
    let high = is_checkpoint_height block.header.height in
    let fresh = fresh_checkpoint block.block_hash block.header.height in
    let law = select-replace block.block_hash hash fresh reg.checkpoints in
    elim (Bool-cases high) [
      | inr low ↦ inl (ground arith)
      | inl opens ↦ elim (Bool-cases (text_beq block.block_hash hash)) [
        | inr other ↦ inl (ground (arith, law))
        | inl same ↦ inr ((text_beq_iff block.block_hash hash).0 same, ground (arith, law))
      ]
    ]

module _ (sha256 : Bytes → Bytes) (codec : Codec) where
  open codec use {Raw}

  -- Stored blocks stay stored.
  apply_block-contains :
      (now : ℕ) (block checked : Block) (answer : Bool) (chain after : Chain Raw) (hash : Text)
      → apply_block sha256 codec now block chain ≡ ok (answer, checked, after)
      → contains hash chain.blocks ≡ true
      → contains hash after.blocks ≡ true
  apply_block-contains now block checked true chain after hash h stored =
      let x = apply_block-Extends sha256 codec now block checked chain after h in
      let row = block_row codec checked in
      ground (arith, x.stored, select-replace checked.block_hash hash row chain.blocks)
  apply_block-contains now block checked false chain after hash h stored =
      let u = apply_block-refused sha256 codec now block checked chain after h in
      ap (contains hash) u.blocks ∙ stored

  Extends-contains :
      (chain after : Chain Raw) (block : Block)
      → Extends codec chain block after
      → contains block.block_hash after.blocks ≡ true
  Extends-contains chain after block x =
      let row = block_row codec block in
      contains-select block.block_hash row after.blocks (
        ap (select block.block_hash) x.stored
        ∙ select-replace block.block_hash block.block_hash row chain.blocks
        ∙ rw (beq_refl block.block_hash))

  pub apply_block-IsAnchored :
      (now : ℕ) (block checked : Block) (answer : Bool) (chain after : Chain Raw)
      (checkpoints : Table Text Checkpoint)
      → apply_block sha256 codec now block chain ≡ ok (answer, checked, after)
      → IsAnchored chain.blocks checkpoints
      → IsAnchored after.blocks checkpoints
  apply_block-IsAnchored now block checked answer chain after checkpoints h anchored hash c found =
      elim (anchored hash c found) [
        | inl low ↦ inl low
        | inr (high, stored) ↦
            inr (high, apply_block-contains now block checked answer chain after hash h stored)
      ]

  pub open_checkpoint-IsAnchored :
      (now : ℕ) (block checked : Block) (chain after : Chain Raw) (reg later : Registry)
      → apply_block sha256 codec now block chain ≡ ok (true, checked, after)
      → open_checkpoint checked reg ≡ ok later
      → IsAnchored chain.blocks reg.checkpoints
      → IsAnchored after.blocks later.checkpoints
  open_checkpoint-IsAnchored now block checked chain after reg later h opened anchored hash c
        found =
      elim (open_checkpoint-select checked reg later hash c opened found) [
        | inl old ↦
            apply_block-IsAnchored now block checked true chain after reg.checkpoints h anchored
              hash c old
        | inr (same, high) ↦
            let x = apply_block-Extends sha256 codec now block checked chain after h in
            inr (
              high,
              subst (λ k. contains k after.blocks ≡ true) same
                  (Extends-contains chain after checked x),
            )
      ]
