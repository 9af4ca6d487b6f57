-- ===== src/Llm/Fallback.antt =====
-- The order of the attempts of `ask` (tools/llm_client.py, lines 37 to 45 and 116 to 130).
use bitchchain.Base.{
  ℕ, zero, suc, ◌+◌, ◌^◌, ◌*◌, ◌≤◌, ◌≡◌, value_error, refl, sym, ap, ◌∙◌, ◌⊎◌, inl, inr, List, [],
  ◌∷◌, ◌++◌, Text, arith, Result, ok, err, Error, length, replicate,
}
use mathlib.Core.Path.{subst}
use mathlib.Core.List.{append_assoc, append-nil}
use bitchchain.Llm.{
  max_retries, Provider, claude, openai, ollama, Client, Prompt, Services, Run, providers,
  unavailable, call_once, attempted, rested, try_from, call_provider, ask_each, ask,
}

-- The attempts that were made, with what came of each, against an order of providers: each attempt is
-- at the next provider of the order, the first that succeeds is the last and gives the answer, and
-- where all fail the order is exhausted.
unfoldable pub IsRun : List Provider → List (Provider × Result Text) → Text → Type 0
IsRun [] tried answer = (tried ≡ []) × (answer ≡ unavailable)
IsRun (p ∷ ps) [] answer = ⊥
IsRun (p ∷ ps) ((q, ok t) ∷ rest) answer = (q ≡ p) × (rest ≡ []) × (answer ≡ t)
IsRun (p ∷ ps) ((q, err e) ∷ rest) answer = (q ≡ p) × IsRun ps rest answer

-- Each provider three times in a row.
unfoldable pub thrice : List Provider → List Provider
thrice [] = []
thrice (p ∷ ps) = replicate max_retries p ++ thrice ps

-- The attempts at one provider, in front of whatever follows.
abbrev Follows : Provider → ℕ → List (Provider × Result Text) → Result Text → Type 0
Follows p n tried (ok t) = (ps : List Provider) → IsRun (replicate n p ++ ps) tried t
Follows p n tried (err e) =
    (ps : List Provider) (more : List (Provider × Result Text)) (answer : Text)
    → IsRun ps more answer
    → IsRun (replicate n p ++ ps) (tried ++ more) answer

Follows-err :
    (p : Provider) (n : ℕ) (e : Error) (tried : List (Provider × Result Text))
    (result : Result Text)
    → Follows p n tried result
    → Follows p (suc n) ((p, err e) ∷ tried) result
unfolding IsRun
Follows-err p n e tried (ok t) h = λ ps. (refl, h ps)
Follows-err p n e tried (err last) h = λ ps more answer r. (refl, h ps more answer r)

Follows-once : (p : Provider) (result : Result Text) → Follows p 1 ((p, result) ∷ []) result
unfolding IsRun
Follows-once p (ok t) = λ ps. (refl, refl, refl)
Follows-once p (err e) = λ ps more answer r. (refl, r)

Follows-ok : (p : Provider) (n : ℕ) (t : Text) → Follows p (suc n) ((p, ok t) ∷ []) (ok t)
unfolding IsRun
Follows-ok p n t = λ ps. (refl, refl, refl)

Result-cases : (r : Result Text) → ((t : Text) × (r ≡ ok t)) ⊎ ((e : Error) × (r ≡ err e))
Result-cases (ok t) = inl (t, refl)
Result-cases (err e) = inr (e, refl)

module _ {W : Type 0} (client : Client) (services : Services W) (query : Prompt) where
  -- What a call adds to the attempts that were made before.
  abbrev Adds : Provider → ℕ → Run W → Result Text × Run W → Type 0
  Adds p n run (result, after) =
      (tried : List (Provider × Result Text)) × (after.attempts ≡ run.attempts ++ tried)
      × Follows p n tried result

  -- What `try_from` does with the result of an attempt that is not the last.
  abbrev branch : ℕ → ℕ → Provider → Run W → Result Text → Result Text × Run W
  branch left attempt p run r =
      let after = attempted client services query p run in
      elim r [
        | ok t ↦ (ok t, after)
        | err e ↦
            try_from client services query left (suc attempt) p
              (rested client services query (2 ^ attempt) after)
      ]

  try_from-ok :
      (left attempt : ℕ) (p : Provider) (run : Run W) (t : Text)
      → (call_once client services query p run.world).0 ≡ ok t
      → try_from client services query (suc left) attempt p run
        ≡ (ok t, attempted client services query p run)
  unfolding try_from
  try_from-ok left attempt p run t at = ap (λ (r : Result Text). branch left attempt p run r) at

  try_from-err :
      (left attempt : ℕ) (p : Provider) (run : Run W) (e : Error)
      → (call_once client services query p run.world).0 ≡ err e
      → try_from client services query (suc left) attempt p run
        ≡ try_from client services query left
            (suc attempt)
            p
            (rested client services query (2 ^ attempt) (attempted client services query p run))
  unfolding try_from
  try_from-err left attempt p run e at = ap (λ (r : Result Text). branch left attempt p run r) at

  try_from-Adds :
      (left attempt : ℕ) (p : Provider) (run : Run W)
      → Adds p (suc left) run (try_from client services query left attempt p run)
  unfolding try_from
  try_from-Adds zero attempt p run =
      let result = (call_once client services query p run.world).0 in
      ((p, result) ∷ [], refl, Follows-once p result)
  try_from-Adds (suc left) attempt p run =
      let result = (call_once client services query p run.world).0 in
      elim (Result-cases result) [
        | inl (t, at) ↦
            subst (Adds p (suc (suc left)) run) (sym (try_from-ok left attempt p run t at))
              ((p, ok t) ∷ [], ap (λ r. run.attempts ++ (p, r) ∷ []) at, Follows-ok p (suc left) t)
        | inr (e, at) ↦
            let next =
              rested client services query (2 ^ attempt) (attempted client services query p run) in
            let (tried, grown, follows) = try_from-Adds left (suc attempt) p next in
            subst (Adds p (suc (suc left)) run) (sym (try_from-err left attempt p run e at)) (
              (p, err e) ∷ tried,
              grown
                  ∙ append_assoc run.attempts ((p, result) ∷ []) tried
                  ∙ ap (λ r. run.attempts ++ (p, r) ∷ tried) at,
              Follows-err p (suc left) e tried _ follows,
            )
      ]

  call_provider-Adds :
      (p : Provider) (run : Run W) → Adds p 3 run (call_provider client services query p run)
  unfolding call_provider
  call_provider-Adds p run = try_from-Adds 2 0 p run

  -- The answer and the attempts of a run, in an order of providers.
  abbrev Answered : List Provider → Run W → Text × Run W → Type 0
  Answered order run (answer, after) =
      (tried : List (Provider × Result Text)) × (after.attempts ≡ run.attempts ++ tried)
      × IsRun order tried answer

  chosen :
      (p : Provider) (ps : List Provider) (run : Run W) (out : Result Text × Run W)
      → Adds p 3 run out
      → Answered (thrice ps) out.1 (ask_each client services query ps out.1)
      → Answered (thrice (p ∷ ps)) run (elim out.0 [
        | ok answer ↦ (answer, out.1)
        | err e ↦ ask_each client services query ps out.1
      ])
  unfolding thrice
  chosen p ps run (ok answer, after) (tried, grown, follows) later =
      (tried, grown, follows (thrice ps))
  chosen p ps run (err e, after) (tried, grown, follows) (more, grown_later, is_run) = (
    tried ++ more,
    grown_later ∙ ap (λ t. t ++ more) grown ∙ append_assoc run.attempts tried more,
    follows (thrice ps) more (ask_each client services query ps after).0 is_run,
  )

  ask_each-Answered :
      (ps : List Provider) (run : Run W)
      → Answered (thrice ps) run (ask_each client services query ps run)
  unfolding ask_each IsRun thrice
  ask_each-Answered [] run = ([], sym (append-nil run.attempts), (refl, refl))
  ask_each-Answered (p ∷ ps) run =
      chosen p ps run (call_provider client services query p run) (call_provider-Adds p run)
        (ask_each-Answered ps (call_provider client services query p run).1)

  call_provider-slept :
      (p : Provider) (run : Run W)
      → (call_provider client services query p run).1.slept ≤ run.slept + 3
  unfolding call_provider try_from
  call_provider-slept p run = ground arith

  ask_each-slept :
      (ps : List Provider) (run : Run W)
      → (ask_each client services query ps run).1.slept ≤ run.slept + 3 * length ps
  unfolding ask_each
  ask_each-slept [] run = omega arith
  ask_each-slept (p ∷ ps) run = ground (
    arith,
    call_provider-slept p run,
    ask_each-slept ps (call_provider client services query p run).1,
  )

  -- `ask` answers whatever the services do. It makes at most nine attempts, three at Claude, then
  -- three at OpenAI, then three at Ollama, where the first that does not raise is the last and gives
  -- the answer; where all nine raise, the answer is that no provider is available. It sleeps nine
  -- seconds at most.
  pub ask-Answered :
      (run : Run W)
      → let (answer, after) = ask client services query run in
        (tried : List (Provider × Result Text)) × (after.attempts ≡ run.attempts ++ tried)
        × IsRun
            (claude ∷ claude ∷ claude ∷ openai ∷ openai ∷ openai ∷ ollama ∷ ollama ∷ ollama ∷ [])
            tried
            answer
        × (after.slept ≤ run.slept + 9)
  unfolding ask thrice
  ask-Answered run =
      let (tried, grown, is_run) = ask_each-Answered providers run in
      (tried, grown, is_run, ask_each-slept providers run)

  -- A provider whose key is missing costs three attempts and three seconds, although no service is
  -- called.
  pub call_provider_keyless :
      (run : Run W)
      → client.anthropic_key ≡ []
      → let (result, after) = call_provider client services query claude run in
        (result ≡ err value_error) × (after.world ≡ run.world) × (after.slept ≡ run.slept + 3)
  unfolding call_provider try_from call_once
  call_provider_keyless run missing = ground arith
