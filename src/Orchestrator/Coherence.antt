-- ===== src/Orchestrator/Coherence.antt =====
-- How the agent's calls keep its chain, its registry and its checkpoints in step
-- (agent/orchestrator.py, lines 70 to 210).
use bitchchain.Base.{
  ℕ, ◌≡◌, refl, sym, ap, ◌∙◌, ◌⊎◌, inl, inr, Bool, true, false, Option, none, some, Text, Bytes, ℤ,
  pos, ltb_ℤ, Bool-cases, text_eq, arith, Result, ok, err,
}
use mathlib.Core.Path.{subst}
use bitchchain.Json.{Fields, Codec}
use bitchchain.Tx.{Block}
use bitchchain.Chain.{Chain, apply_block}
use bitchchain.Chain.Invariant
use bitchchain.Finality.{Registry, FinalityVote}
use bitchchain.Consensus.{Reply, submit_block, open_checkpoint, register_validator, submit_vote}
use bitchchain.Consensus.Finalizing
use bitchchain.Genesis.{create_genesis_block}
use bitchchain.Orchestrator.{Agent, Setting, settle_submitted, submit_proposed, mine_and_submit}
use bitchchain.Orchestrator.Calls.{
  logged, stake_validator, submit_finality_vote, apply_genesis, open_chain, start_node,
}
use bitchchain.Orchestrator.Anchors.{
  IsAnchored, KeepsHeights-IsAnchored, submit_vote-KeepsHeights, apply_block-IsAnchored,
  open_checkpoint-IsAnchored,
}

module _ (sha256 ripemd160 : Bytes → Bytes) (codec : Codec) where
  open codec use {Raw}

  -- The chain and the registry are reachable by their own operations, and every checkpoint of
  -- another height than 0 names a stored block.
  pub record IsCoherent (chain : Chain Raw) (registry : Registry) : Type 0 where
    pub chained : Invariant.Reach sha256 codec chain
    pub registered : Finalizing.Reach registry
    pub anchored : IsAnchored chain.blocks registry.checkpoints

  apply_block-IsCoherent :
      (now : ℕ) (block checked : Block) (answer : Bool) (chain after : Chain Raw) (reg : Registry)
      → apply_block sha256 codec now block chain ≡ ok (answer, checked, after)
      → IsCoherent chain reg
      → IsCoherent after reg
  apply_block-IsCoherent now block checked answer chain after reg h i = record {
    chained = Invariant.applied now block checked answer i.chained h;
    registered = i.registered;
    anchored =
        apply_block-IsAnchored sha256 codec now block checked answer chain after reg.checkpoints h
          i.anchored;
  }

  -- What `submit_block` did, whatever it answered.
  submit_block-parts :
      (now : ℕ) (block left : Block) (answer : Bool) (chain after : Chain Raw)
      (reg later : Registry)
      → submit_block sha256 codec now block chain reg ≡ ok (answer, left, after, later)
      → (apply_block sha256 codec now block chain ≡ ok (answer, left, after))
        × ((later ≡ reg) ⊎ ((answer ≡ true) × (open_checkpoint left reg ≡ ok later)))
  unfolding submit_block
  submit_block-parts now block left true chain after reg later h =
      (ground arith, inr (ground arith))
  submit_block-parts now block left false chain after reg later h =
      (ground arith, inl (ground arith))

  submit_block-IsCoherent :
      (now : ℕ) (block left : Block) (answer : Bool) (chain after : Chain Raw)
      (reg later : Registry)
      → submit_block sha256 codec now block chain reg ≡ ok (answer, left, after, later)
      → IsCoherent chain reg
      → IsCoherent after later
  submit_block-IsCoherent now block left answer chain after reg later h i =
      let (applied, rest) = submit_block-parts now block left answer chain after reg later h in
      elim rest [
        | inl same ↦
            subst (IsCoherent after) (sym same)
              (apply_block-IsCoherent now block left answer chain after reg applied i)
        | inr (accepted, opened) ↦
            let taken : apply_block sha256 codec now block chain ≡ ok (true, left, after) =
              applied ∙ ap (λ a. ok (a, left, after)) accepted in
            record {
              chained = Invariant.applied now block left true i.chained taken;
              registered = Finalizing.opened left i.registered opened;
              anchored =
                  open_checkpoint-IsAnchored sha256 codec now block left chain after reg later taken
                    opened i.anchored;
            }
      ]

  settle_submitted-IsCoherent :
      (setting : Setting) (block : Block) (agent : Agent Raw)
      (out : Result (Bool × Block × Chain Raw × Registry))
      → submit_block sha256 codec setting.submitted_at block agent.chain agent.registry ≡ out
      → IsCoherent agent.chain agent.registry
      → let later = (settle_submitted sha256 ripemd160 codec setting.stamp out agent).1 in
        IsCoherent later.chain later.registry
  unfolding settle_submitted
  settle_submitted-IsCoherent setting block agent (err e) at i = i
  settle_submitted-IsCoherent setting block agent (ok (true, left, chain, registry)) at i =
      submit_block-IsCoherent setting.submitted_at block left true agent.chain chain agent.registry
        registry at i
  settle_submitted-IsCoherent setting block agent (ok (false, left, chain, registry)) at i =
      submit_block-IsCoherent setting.submitted_at block left false agent.chain chain agent.registry
        registry at i

  submit_proposed-IsCoherent :
      (setting : Setting) (proposed : Result (Option Block)) (agent : Agent Raw)
      → IsCoherent agent.chain agent.registry
      → let later = (submit_proposed sha256 ripemd160 codec setting proposed agent).1 in
        IsCoherent later.chain later.registry
  unfolding submit_proposed
  submit_proposed-IsCoherent setting (err e) agent i = i
  submit_proposed-IsCoherent setting (ok none) agent i = i
  submit_proposed-IsCoherent setting (ok (some block)) agent i =
      settle_submitted-IsCoherent setting block agent
        (submit_block sha256 codec setting.submitted_at block agent.chain agent.registry) refl i

  pub mine_and_submit-IsCoherent :
      (setting : Setting) (regtest : Bool) (agent : Agent Raw)
      → IsCoherent agent.chain agent.registry
      → let later = (mine_and_submit sha256 ripemd160 codec setting regtest agent).1 in
        IsCoherent later.chain later.registry
  unfolding mine_and_submit
  mine_and_submit-IsCoherent setting regtest agent i = submit_proposed-IsCoherent setting _ agent i

  register_validator-IsCoherent :
      (address : Text) (stake : ℤ) (txid : Text) (height : ℤ) (chain : Chain Raw)
      (reg after : Registry) (reply : Bool × Reply)
      → register_validator address stake txid height reg ≡ ok (reply, after)
      → IsCoherent chain reg
      → IsCoherent chain after
  register_validator-IsCoherent address stake txid height chain reg after reply h i = record {
    chained = i.chained;
    registered = Finalizing.joined address stake txid height i.registered h;
    anchored =
        subst (IsAnchored chain.blocks)
          (sym
            (Finalizing.register_validator-checkpoints address stake txid height reg after reply h))
          i.anchored;
  }

  submit_vote-IsCoherent :
      (now : ℕ) (vote : FinalityVote) (chain : Chain Raw) (reg after : Registry)
      (reply : Bool × Reply)
      → submit_vote now vote reg ≡ ok (reply, after)
      → IsCoherent chain reg
      → IsCoherent chain after
  submit_vote-IsCoherent now vote chain reg after reply h i = record {
    chained = i.chained;
    registered = Finalizing.voted now vote i.registered h;
    anchored =
        KeepsHeights-IsAnchored chain.blocks reg.checkpoints after.checkpoints
          (submit_vote-KeepsHeights now vote reg after reply
            (Finalizing.Reach-AllTallied reg i.registered) h)
          i.anchored;
  }

  -- The chain and the registry behind a logged call of the registry.
  logged-IsCoherent :
      (details : Bool → Fields) (event : Text) (agent : Agent Raw)
      (out : Result ((Bool × Reply) × Registry))
      → ((reply : Bool × Reply) (after : Registry)
          → out ≡ ok (reply, after)
          → IsCoherent agent.chain after)
      → IsCoherent agent.chain agent.registry
      → let later = (logged sha256 ripemd160 codec details event out agent).1 in
        IsCoherent later.chain later.registry
  logged-IsCoherent details event agent (err e) made i = i
  logged-IsCoherent details event agent (ok (reply, after)) made i = made reply after refl

  pub stake_validator-IsCoherent :
      (address : Text) (stake : ℤ) (txid : Text) (agent : Agent Raw)
      → IsCoherent agent.chain agent.registry
      → let later = (stake_validator sha256 ripemd160 codec address stake txid agent).1 in
        IsCoherent later.chain later.registry
  unfolding stake_validator
  stake_validator-IsCoherent address stake txid agent i =
      logged-IsCoherent _ _ agent _
        (λ reply after h.
          register_validator-IsCoherent address stake txid agent.chain.height agent.chain
            agent.registry after reply h i)
        i

  genesis_applied :
      (now : ℕ) (genesis : Block) (chain : Chain Raw) (reg : Registry)
      (out : Result (Bool × Block × Chain Raw))
      → apply_block sha256 codec now genesis chain ≡ out
      → IsCoherent chain reg
      → IsCoherent (apply_genesis sha256 ripemd160 codec now (ok genesis) chain).1 reg
  unfolding apply_genesis
  genesis_applied now genesis chain reg (err e) at i = rw (at, apply_genesis) i
  genesis_applied now genesis chain reg (ok (answer, checked, after)) at i =
      rw (at, apply_genesis)
        (apply_block-IsCoherent now genesis checked answer chain after reg at i)

  apply_genesis-IsCoherent :
      (now : ℕ) (genesis : Result Block) (chain : Chain Raw) (reg : Registry)
      → IsCoherent chain reg
      → IsCoherent (apply_genesis sha256 ripemd160 codec now genesis chain).1 reg
  unfolding apply_genesis
  apply_genesis-IsCoherent now (err e) chain reg i = i
  apply_genesis-IsCoherent now (ok genesis) chain reg i =
      genesis_applied now genesis chain reg (apply_block sha256 codec now genesis chain) refl i

  open_chain-IsCoherent :
      (now : ℕ) (chain : Chain Raw) (reg : Registry)
      → IsCoherent chain reg
      → IsCoherent (open_chain sha256 ripemd160 codec now chain).1 reg
  unfolding apply_genesis
  open_chain-IsCoherent now chain reg i = elim (Bool-cases (ltb_ℤ chain.height (pos 0))) [
    | inr started ↦ rw started i
    | inl empty ↦ rw empty (apply_genesis-IsCoherent now (create_genesis_block sha256) chain reg i)
  ]

  start_node-state :
      (now : ℕ) (agent : Agent Raw)
      → let later = (start_node sha256 ripemd160 codec now agent).1 in
        (later.chain ≡ (open_chain sha256 ripemd160 codec now agent.chain).1)
        × (later.registry ≡ agent.registry)
  unfolding start_node
  start_node-state now agent = ground arith

  pub start_node-IsCoherent :
      (now : ℕ) (agent : Agent Raw)
      → IsCoherent agent.chain agent.registry
      → let later = (start_node sha256 ripemd160 codec now agent).1 in
        IsCoherent later.chain later.registry
  start_node-IsCoherent now agent i =
      let (chain, registry) = start_node-state now agent in
      rw (chain, registry) (open_chain-IsCoherent now agent.chain agent.registry i)

  pub submit_finality_vote-IsCoherent :
      (now : ℕ) (validator source target signature : Text) (agent : Agent Raw)
      → IsCoherent agent.chain agent.registry
      → let later =
          (submit_finality_vote sha256 ripemd160 codec now validator source target signature
            agent).1 in
        IsCoherent later.chain later.registry
  unfolding submit_finality_vote
  submit_finality_vote-IsCoherent now validator source target signature agent i =
      logged-IsCoherent _ _ agent _
        (λ reply after h. submit_vote-IsCoherent now _ agent.chain agent.registry after reply h i) i
