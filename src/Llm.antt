-- ===== src/Llm.antt =====
-- The client of the language models (`LLMClient`, tools/llm_client.py): the retries, the fallback
-- from one provider to the next, and JSON in an answer. The services behind the providers, the
-- reading of JSON and `str.lower` are parameters; a service may look at a state of its own.
pub mod Fallback
pub mod Extract
pub mod Evaluation
use bitchchain.Base.{
  ℕ, zero, suc, ◌+◌, ◌-◌, ◌^◌, ◌≡◌, Bool, true, false, Option, none, some, List, [], ◌∷◌, ◌++◌,
  Text, text, if◌then◌else◌, ◌==◌, Result, ok, err, Error, value_error,
}
use bitchchain.Json.{Json, Fields}

pub data Provider : Type 0 where
  claude openai ollama : Provider

-- The fields that the calls look at; the names of the models go to the services alone.
pub record Client : Type 0 where
  pub anthropic_key : Text
  pub openai_key : Text
  pub ollama_url : Text

pub record Prompt : Type 0 where
  pub prompt : Text
  pub system : Option Text
  pub max_tokens : ℕ

-- The three services: each answers or raises.
pub record Services (W : Type 0) : Type 0 where
  pub anthropic : Text → Prompt → W → Result Text × W
  pub open_ai : Text → Prompt → W → Result Text × W
  pub ollama_api : Text → Prompt → W → Result Text × W

-- What a call leaves: the services' state, the attempts made with what came of each, and the seconds
-- slept.
pub record Run (W : Type 0) : Type 0 where
  pub world : W
  pub attempts : List (Provider × Result Text)
  pub slept : ℕ

-- `MAX_RETRIES`
abbrev pub max_retries : ℕ
max_retries = 3

abbrev pub unavailable : Text
unavailable = text "All LLM providers unavailable. Falling back to SECOND-KNOWLEDGE-BRAIN.md."

abbrev pub providers : List Provider
providers = claude ∷ openai ∷ ollama ∷ []

module _ {W : Type 0} (client : Client) (services : Services W) (query : Prompt) where
  -- A service that wants a key is not called without one.
  abbrev pub with_key : Text → (Text → Prompt → W → Result Text × W) → W → Result Text × W
  with_key [] service world = (err value_error, world)
  with_key (c ∷ key) service world = service (c ∷ key) query world

  -- `_call_claude`, `_call_openai` and `_call_ollama`
  unfoldable pub call_once : Provider → W → Result Text × W
  call_once claude world = with_key client.anthropic_key services.anthropic world
  call_once openai world = with_key client.openai_key services.open_ai world
  call_once ollama world = services.ollama_api client.ollama_url query world

  -- What one attempt adds to a run.
  abbrev pub attempted : Provider → Run W → Run W
  attempted provider run =
      let (result, world) = call_once provider run.world in
      record run { world = world; attempts = run.attempts ++ (provider, result) ∷ [] }

  abbrev pub rested : ℕ → Run W → Run W
  rested seconds run = record run { slept = run.slept + seconds }

  -- The loop of `_call_provider`: `left` more attempts behind this one, which has the number
  -- `attempt`. It sleeps after each failure but the last, and raises what that raised.
  unfoldable pub try_from : ℕ → ℕ → Provider → Run W → Result Text × Run W
  try_from zero attempt provider run = ((call_once provider run.world).0, attempted provider run)
  try_from (suc left) attempt provider run =
      let later =
        try_from left (suc attempt) provider (rested (2 ^ attempt) (attempted provider run)) in
      elim (call_once provider run.world).0 [
        | ok answer ↦ (ok answer, attempted provider run)
        | err e ↦ later
      ]

  unfoldable pub call_provider : Provider → Run W → Result Text × Run W
  unfolding try_from
  call_provider provider run = try_from (max_retries - 1) 0 provider run

  -- The loop of `ask`.
  unfoldable pub ask_each : List Provider → Run W → Text × Run W
  ask_each [] run = (unavailable, run)
  ask_each (provider ∷ rest) run =
      let (result, after) = call_provider provider run in
      let later = ask_each rest after in elim result [ ok answer ↦ (answer, after) | err e ↦ later ]

  unfoldable pub ask : Run W → Text × Run W
  unfolding ask_each
  ask run = ask_each providers run

-- `response.find("{")`: what comes from the first brace on.
unfoldable pub from_brace : Text → Option Text
from_brace [] = none
from_brace (c ∷ s) = let rest = from_brace s in if c == 123 then some (c ∷ s) else rest

-- `response.rfind("}") + 1`: what stands up to the last closing brace.
unfoldable pub to_brace : Text → Option Text
to_brace [] = none
to_brace (c ∷ s) = elim (to_brace s) [
  | some kept ↦ some (c ∷ kept)
  | none ↦ if c == 125 then some (c ∷ []) else none
]

-- `response[start:end]`, where there is a brace and a closing brace behind it.
unfoldable pub braced : Text → Option Text
braced response = elim (from_brace response) [ none ↦ none | some rest ↦ to_brace rest ]

module _ (loads : Text → Result Json) where
  abbrev pub raw_response : Text → Json
  raw_response response = Json.obj (Fields.field "raw_response" (Json.str response) Fields.end)

  -- What `ask_json` makes of an answer.
  unfoldable pub read_answer : Text → Json
  unfolding braced
  read_answer response = elim (braced response) [
    | none ↦ raw_response response
    | some inner ↦ elim (loads inner) [ ok j ↦ j | err e ↦ raw_response response ]
  ]

  unfoldable pub ask_json : {W : Type 0} → Client → Services W → Prompt → Run W → Json × Run W
  ask_json client services query run =
      let asked = record query {
        prompt = query.prompt ++ text "\n\nRespond with valid JSON only.";
      } in
      let (response, after) = ask client services asked run in (read_answer response, after)

-- `provider_status`, without the names of the models.
unfoldable pub provider_status : Client → List (Text × Text)
provider_status client =
    let state : Text → Text → Text =
      λ key missing. elim key [ [] ↦ missing | _ ∷ _ ↦ text "configured" ] in
    (text "claude", state client.anthropic_key (text "missing ANTHROPIC_API_KEY"))
    ∷ (text "openai", state client.openai_key (text "missing OPENAI_API_KEY"))
    ∷ (text "ollama", text "url=" ++ client.ollama_url)
    ∷ []
