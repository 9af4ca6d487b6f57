-- ===== src/Llm/Evaluation.antt =====
-- The ten questions with known terms (`evaluate_prompts`, tools/llm_client.py, lines 210 to 287).
-- `lower` is `str.lower`; the percentage, which is a float, is left out.
use bitchchain.Base.{
  ℕ, suc, ◌+◌, ◌≤◌, ◌≡◌, refl, ap, List, [], ◌∷◌, ◌++◌, Text, text, if◌then◌else◌, length, take,
  arith, none,
}
use Prim.Native.String.{String}
use bitchchain.Base.Substring.{occurs_in}
use bitchchain.Llm.{Prompt, Client, Services, Run, ask}

pub record Question : Type 0 where
  pub question : Text
  pub expected_terms : List Text

abbrev texts : List String → List Text
texts [] = []
texts (s ∷ ss) = text s ∷ texts ss

abbrev asks : String → List String → Question
asks question terms = record { question = text question; expected_terms = texts terms }

abbrev pub eval_set : List Question
eval_set =
    asks "What is the maximum block size in Bitcoin and how does Bitchchain improve on it?"
      ("1 MB" ∷ "4 MB" ∷ "segwit" ∷ "throughput" ∷ [])
    ∷ asks "Explain how Pedersen commitments enable Confidential Transactions."
        ("r*G" ∷ "v*H" ∷ "blinding" ∷ "elliptic curve" ∷ "commitment" ∷ [])
    ∷ asks "What is the 2/3 finality threshold in Casper FFG?"
        ("2/3" ∷ "supermajority" ∷ "stake" ∷ "finalize" ∷ [])
    ∷ asks "How does SHA-256d differ from SHA-256 and why does Bitcoin use it?"
        ("double" ∷ "two" ∷ "collision" ∷ "length extension" ∷ [])
    ∷ asks "What is the UTXO model and how does it differ from the account model?"
        ("unspent" ∷ "transaction output" ∷ "balance" ∷ "account" ∷ [])
    ∷ asks "Explain the nothing-at-stake problem in Proof-of-Stake systems."
        ("fork" ∷ "vote" ∷ "penalty" ∷ "slashing" ∷ [])
    ∷ asks "What is a Merkle tree and how is it used in block headers?"
        ("hash" ∷ "root" ∷ "binary tree" ∷ "verification" ∷ [])
    ∷ asks "How does Bitcoin's difficulty adjustment algorithm work?"
        ("2016" ∷ "target" ∷ "retarget" ∷ "timespan" ∷ [])
    ∷ asks "What are Bulletproofs and how do they improve on earlier range proofs?"
        ("range proof" ∷ "logarithmic" ∷ "size" ∷ "confidential" ∷ [])
    ∷ asks "Explain the trade-offs between block size, decentralization, and throughput."
        ("block size" ∷ "bandwidth" ∷ "centralization" ∷ "verification" ∷ [])
    ∷ []

unfoldable pub matched_terms : (Text → Text) → Text → List Text → List Text
matched_terms lower answer [] = []
matched_terms lower answer (t ∷ ts) =
    let rest = matched_terms lower answer ts in
    if occurs_in (lower t) answer then t ∷ rest else rest

pub record Score : Type 0 where
  pub matched : List Text
  pub score : ℕ
  pub answer_preview : Text

abbrev pub score_of : List Text → ℕ
score_of [] = 0
score_of (t ∷ ts) = 1

unfoldable pub score_answer : (Text → Text) → Question → Text → Score
score_answer lower item answer =
    let matched = matched_terms lower (lower answer) item.expected_terms in
    record { matched = matched; score = score_of matched; answer_preview = take 200 answer }

-- `provider_used`: by the keys, whoever answered.
abbrev pub provider_used : Client → Text
provider_used client = elim client.anthropic_key [
  | _ ∷ _ ↦ text "claude"
  | [] ↦ elim client.openai_key [ _ ∷ _ ↦ text "openai" | [] ↦ text "ollama" ]
]

-- The question as it is asked.
abbrev pub evaluation_prompt : Question → Prompt
evaluation_prompt item = record {
  prompt =
      text "You are a blockchain protocol expert. Answer concisely and accurately:\n\n"
      ++ item.question;
  system = none;
  max_tokens = 4096;
}

score_of-small : (ts : List Text) → score_of ts ≤ 1
score_of-small [] = omega arith
score_of-small (t ∷ ts) = omega arith

module _ {W : Type 0} (lower : Text → Text) (client : Client) (services : Services W) where
  -- The loop over the questions: the scores, their sum, and the run.
  unfoldable pub evaluate_each : List Question → Run W → List Score × ℕ × Run W
  evaluate_each [] run = ([], 0, run)
  evaluate_each (item ∷ items) run =
      let (answer, after) = ask client services (evaluation_prompt item) run in
      let result = score_answer lower item answer in
      let (rest, total, last) = evaluate_each items after in
      (result ∷ rest, result.score + total, last)

  unfoldable pub evaluate_prompts : Run W → List Score × ℕ × Run W
  unfolding evaluate_each
  evaluate_prompts run = evaluate_each eval_set run

  evaluate_each-bounds :
      (items : List Question) (run : Run W)
      → let (scores, total, last) = evaluate_each items run in
        (length scores ≡ length items) × (total ≤ length items)
  unfolding evaluate_each score_answer
  evaluate_each-bounds [] run = (refl, omega arith)
  evaluate_each-bounds (item ∷ items) run =
      let (answer, after) = ask client services (evaluation_prompt item) run in
      let matched = matched_terms lower (lower answer) item.expected_terms in
      let (same, most) = evaluate_each-bounds items after in
      (ap suc same, omega (arith, score_of-small matched, most))

  -- Whatever the services do, the evaluation gives one score for each of the ten questions, and ten
  -- points at most.
  pub evaluate_prompts-bounds :
      (run : Run W)
      → let (scores, total, last) = evaluate_prompts run in (length scores ≡ 10) × (total ≤ 10)
  unfolding evaluate_prompts
  evaluate_prompts-bounds run = evaluate_each-bounds eval_set run
