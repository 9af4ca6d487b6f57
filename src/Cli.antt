-- ===== src/Cli.antt =====
-- The commands that change the node's state (agent/main.py, lines 59 to 109): what each calls with
-- its arguments. The parsing of the arguments and the printing are not modelled.
use bitchchain.Base.{
  ℕ, suc, ◌≤◌, ◌≡◌, refl, ap, ◌⊎◌, inl, inr, Bool, true, false, List, [], ◌∷◌, Text, Bytes, ℤ, pos,
  length, Result, ok, err, ◌>>=◌, >>=-eq-ok, arith,
}
use mathlib.Core.Path.{subst}
use bitchchain.Json.{Json, Codec}
use bitchchain.Curve.{Point}
use bitchchain.Transfers.Building.{Draws}
use bitchchain.Orchestrator.{Agent, Setting, MineReply, mined, exhausted, rejected, mine_and_submit}
use bitchchain.Orchestrator.Calls.{
  send_transaction, send_ct_transaction, stake_validator, submit_finality_vote,
}
use bitchchain.Orchestrator.Reach.{Reach}

-- `result["success"]`
abbrev pub is_success : MineReply → Bool
is_success (mined hash height tx_count size) = true
is_success exhausted = false
is_success rejected = false

-- How many of the results are blocks.
unfoldable pub mined_count : List MineReply → ℕ
mined_count [] = 0
mined_count (reply ∷ replies) =
    let rest = mined_count replies in elim (is_success reply) [ true ↦ suc rest | false ↦ rest ]

-- The commands with their arguments; mining has the setting of each round.
pub data Command : Type 0 where
  mine : (settings : List Setting) (regtest : Bool) → Command
  send_tx : (to_address : Bytes) (amount : ℤ) (from_txid : Text) (from_vout : ℕ) → Command
  send_ct :
      (parties : Text × Text) (amounts : ℤ × ℤ) (input : Text × ℕ × ℕ) (draws : Draws) (nonce : ℕ)
      → Command
  stake : (address : Text) (amount : ℤ) (stake_txid : Text) → Command
  vote : (now : ℕ) (validator source target : Text) → Command

module _ (sha256 ripemd160 : Bytes → Bytes) (codec : Codec) where
  open codec use {Raw}

  -- What follows a round of mining: a failure ends the loop.
  abbrev pub next_round :
      Result MineReply
      → Agent Raw
      → (Agent Raw → Result (List MineReply) × Agent Raw)
      → Result (List MineReply) × Agent Raw
  next_round (err e) agent later = (err e, agent)
  next_round (ok reply) agent later = elim (is_success reply) [
    | false ↦ (ok (reply ∷ []), agent)
    | true ↦ let (rest, last) = later agent in (rest >>= λ replies. ok (reply ∷ replies), last)
  ]

  -- `cmd_mine`: the results, or what a round raised.
  unfoldable pub cmd_mine : List Setting → Bool → Agent Raw → Result (List MineReply) × Agent Raw
  cmd_mine [] regtest agent = (ok [], agent)
  cmd_mine (setting ∷ settings) regtest agent =
      let (reply, after) = mine_and_submit sha256 ripemd160 codec setting regtest agent in
      next_round reply after (cmd_mine settings regtest)

  -- What a command leaves.
  unfoldable pub run_command :
      (Bytes → Bytes → Bytes) → (Json → Bytes) → Point → Command → Agent Raw → Agent Raw
  unfolding cmd_mine
  run_command hmac canonical h (mine settings regtest) agent = (cmd_mine settings regtest agent).1
  run_command hmac canonical h (send_tx to_address amount from_txid from_vout) agent =
      (send_transaction sha256 ripemd160 codec to_address amount from_txid from_vout [] (pos 0)
        agent).1
  run_command hmac canonical h (send_ct parties amounts input draws nonce) agent =
      (send_ct_transaction sha256 ripemd160 codec hmac canonical h parties amounts input draws nonce
        agent).1
  run_command hmac canonical h (stake address amount stake_txid) agent =
      (stake_validator sha256 ripemd160 codec address amount stake_txid agent).1
  run_command hmac canonical h (vote now validator source target) agent =
      (submit_finality_vote sha256 ripemd160 codec now validator source target [] agent).1

  next_round-Reach :
      (reply : Result MineReply) (agent : Agent Raw)
      (later : Agent Raw → Result (List MineReply) × Agent Raw)
      → Reach sha256 ripemd160 codec agent
      → ((a : Agent Raw)
          → Reach sha256 ripemd160 codec a
          → Reach sha256 ripemd160 codec (later a).1)
      → Reach sha256 ripemd160 codec (next_round reply agent later).1
  next_round-Reach (err e) agent later r keeps = r
  next_round-Reach (ok (mined hash height tx_count size)) agent later r keeps = keeps agent r
  next_round-Reach (ok exhausted) agent later r keeps = r
  next_round-Reach (ok rejected) agent later r keeps = r

  cmd_mine-Reach :
      (settings : List Setting) (regtest : Bool) (agent : Agent Raw)
      → Reach sha256 ripemd160 codec agent
      → Reach sha256 ripemd160 codec (cmd_mine settings regtest agent).1
  unfolding cmd_mine
  cmd_mine-Reach [] regtest agent r = r
  cmd_mine-Reach (setting ∷ settings) regtest agent r =
      let (reply, after) = mine_and_submit sha256 ripemd160 codec setting regtest agent in
      next_round-Reach reply after (cmd_mine settings regtest) (Reach.mined setting regtest r)
        (λ a. cmd_mine-Reach settings regtest a)

  -- Whatever command is given to an agent in a state that it can reach, with whatever arguments, it
  -- leaves one in such a state.
  pub run_command-Reach :
      (hmac : Bytes → Bytes → Bytes) (canonical : Json → Bytes) (h : Point) (command : Command)
      (agent : Agent Raw)
      → Reach sha256 ripemd160 codec agent
      → Reach sha256 ripemd160 codec (run_command hmac canonical h command agent)
  unfolding run_command
  run_command-Reach hmac canonical h (mine settings regtest) agent r =
      cmd_mine-Reach settings regtest agent r
  run_command-Reach hmac canonical h (send_tx to_address amount from_txid from_vout) agent r =
      Reach.sent to_address amount from_txid from_vout [] (pos 0) r
  run_command-Reach hmac canonical h (send_ct parties amounts input draws nonce) agent r =
      Reach.sent_hidden hmac canonical h parties amounts input draws nonce r
  run_command-Reach hmac canonical h (stake address amount stake_txid) agent r =
      Reach.staked address amount stake_txid r
  run_command-Reach hmac canonical h (vote now validator source target) agent r =
      Reach.voted now validator source target [] r

  -- The results of `count` rounds of mining: all are blocks, or all but the last.
  abbrev pub IsMined : ℕ → List MineReply → Type 0
  IsMined count replies =
      ((length replies ≡ count) × (mined_count replies ≡ count))
      ⊎ ((length replies ≤ count) × (suc (mined_count replies) ≡ length replies))

  failed_last :
      (count : ℕ) (reply : MineReply) (replies : List MineReply)
      → is_success reply ≡ false
      → ok (reply ∷ []) ≡ ok replies
      → IsMined (suc count) replies
  unfolding mined_count
  failed_last count reply replies fails done =
      let same : reply ∷ [] ≡ replies = cc done in
      subst (IsMined (suc count)) same (inr (omega arith, rw (fails, mined_count) refl))

  next_round-IsMined :
      (count : ℕ) (reply : Result MineReply) (agent : Agent Raw)
      (later : Agent Raw → Result (List MineReply) × Agent Raw) (replies : List MineReply)
      → ((a : Agent Raw) (rest : List MineReply) → (later a).0 ≡ ok rest → IsMined count rest)
      → (next_round reply agent later).0 ≡ ok replies
      → IsMined (suc count) replies
  unfolding mined_count
  next_round-IsMined count (err e) agent later replies rest done = absurd (cc done)
  next_round-IsMined count (ok exhausted) agent later replies rest done =
      failed_last count exhausted replies refl done
  next_round-IsMined count (ok rejected) agent later replies rest done =
      failed_last count rejected replies refl done
  next_round-IsMined count (ok (mined hash height tx_count size)) agent later replies rest done =
      let first = mined hash height tx_count size in
      let (others, found, built) = >>=-eq-ok (later agent).0 (λ rs. ok (first ∷ rs)) done in
      let same : first ∷ others ≡ replies = cc built in
      let longer : IsMined (suc count) (first ∷ others) = elim (rest agent others found) [
        | inl (all, good) ↦ inl (ap suc all, ap suc good)
        | inr (few, good) ↦ inr (omega (arith, few), ap suc good)
      ] in
      subst (IsMined (suc count)) same longer

  -- The results that `cmd_mine` prints, where no round raises: as many as were asked for, all of them
  -- blocks, or at most as many, of which all but one are blocks.
  pub cmd_mine-IsMined :
      (settings : List Setting) (regtest : Bool) (agent : Agent Raw) (replies : List MineReply)
      → (cmd_mine settings regtest agent).0 ≡ ok replies
      → IsMined (length settings) replies
  unfolding cmd_mine mined_count
  cmd_mine-IsMined [] regtest agent replies done =
      let none_left : [] ≡ replies = cc done in subst (IsMined 0) none_left (inl (refl, refl))
  cmd_mine-IsMined (setting ∷ settings) regtest agent replies done =
      let (reply, after) = mine_and_submit sha256 ripemd160 codec setting regtest agent in
      next_round-IsMined (length settings) reply after (cmd_mine settings regtest) replies
        (λ a rest. cmd_mine-IsMined settings regtest a rest) done
