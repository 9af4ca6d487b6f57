-- ===== src/Llm/Extract.antt =====
-- The JSON in an answer (`ask_json`, tools/llm_client.py, lines 47 to 58).
use bitchchain.Base.{◌≡◌, refl, ◌∙◌, none, some, [], ◌∷◌, ◌++◌, Text, arith, Result, ok, err}
use bitchchain.Json.{Json}
use bitchchain.Llm.{from_brace, to_brace, braced, raw_response, read_answer}

from_brace-append :
    (before rest : Text) → from_brace before ≡ none → from_brace (before ++ rest) ≡ from_brace rest
unfolding from_brace
from_brace-append [] rest h = refl
from_brace-append (c ∷ before) rest h = ground (arith, from_brace-append before rest)

to_brace-append :
    (inner after : Text)
    → to_brace after ≡ none
    → to_brace (inner ++ 125 ∷ after) ≡ some (inner ++ 125 ∷ [])
unfolding to_brace
to_brace-append [] after h = ground arith
to_brace-append (c ∷ inner) after h = ground (arith, to_brace-append inner after h)

from_brace-here : (s : Text) → from_brace (123 ∷ s) ≡ some (123 ∷ s)
unfolding from_brace
from_brace-here s = ground arith

-- An object is found in an answer that has other text around it.
pub braced-embedded :
    (before inner after : Text)
    → from_brace before ≡ none
    → to_brace after ≡ none
    → braced (before ++ (123 ∷ (inner ++ 125 ∷ after))) ≡ some (123 ∷ (inner ++ 125 ∷ []))
unfolding braced from_brace
braced-embedded before inner after opens closes =
    let found : from_brace (before ++ (123 ∷ (inner ++ 125 ∷ after)))
        ≡ some (123 ∷ (inner ++ 125 ∷ after)) =
      from_brace-append before (123 ∷ (inner ++ 125 ∷ after)) opens
      ∙ from_brace-here (inner ++ 125 ∷ after) in
    ground (arith, found, to_brace-append (123 ∷ inner) after closes)

module _ (loads : Text → Result Json) where
  -- What stands from the first opening brace of an answer to its last closing one is read as JSON,
  -- whatever text without an opening brace stands before it and whatever text without a closing
  -- brace behind it. Where that cannot be read, the whole answer is handed on as it is.
  pub read_answer-embedded :
      (before inner after : Text)
      → from_brace before ≡ none
      → to_brace after ≡ none
      → let response = before ++ (123 ∷ (inner ++ 125 ∷ after)) in
        read_answer loads response ≡ elim (loads (123 ∷ (inner ++ 125 ∷ []))) [
          | ok j ↦ j
          | err e ↦ raw_response loads response
        ]
  unfolding read_answer
  read_answer-embedded before inner after opens closes =
      ground (arith, braced-embedded before inner after opens closes)

  from_brace-none : (response : Text) → from_brace response ≡ none → braced response ≡ none
  unfolding braced
  from_brace-none response h = ground arith

  -- An answer without an opening brace is handed on as it is.
  pub read_answer-plain :
      (response : Text)
      → from_brace response ≡ none
      → read_answer loads response ≡ raw_response loads response
  unfolding read_answer
  read_answer-plain response h = ground (arith, from_brace-none response h)
