-- ===== src/Tests/Crawls.antt =====
-- Runs of the crawler and of the client of the language models at concrete values.
use bitchchain.Base.{
  ℕ, ◌+◌, ◌*◌, ◌/◌, ◌-◌, ◌≤◌, ◌≡◌, ◌≢◌, true, none, List, [], ◌∷◌, ◌++◌, Text, text, leb, pos,
  pos_part, arith, Result, ok, err, connection_error, if◌then◌else◌,
}
use mathlib.Core.List.{Perm}
use bitchchain.Base.Every.{Every}
use bitchchain.Llm.{Provider, claude, openai, ollama, Client, Services, Prompt, Run, ask}
use bitchchain.Llm.Fallback.{IsRun, ask-Answered}
use bitchchain.Research.{Paper, Answers, is_seen}
use bitchchain.Research.Ranking.{Floats, IsOrdered, Scored, choose}
use bitchchain.Research.Ranking.Chosen.{IsDescending, IsChoice, choose-IsChoice}
use bitchchain.Research.Brain.{Updater, CrawlSetting, run, append_to_brain}
use bitchchain.Research.Brain.Urls.{IsUrl, load_seen_hashes, load_seen_hashes-append_to_brain}
use bitchchain.Research.Brain.Rerun.{run-again}
use bitchchain.Tests.{zero_sha}

-- Scores in tenths.
abbrev tenth_scores : Floats
tenth_scores = record {
  Float = ℕ;
  of_int = λ z. 10 * pos_part z;
  tenths = λ n. n;
  plus = λ a b. a + b;
  minus = λ a b. a - b;
  times = λ a b. a * b / 10;
  over = λ a b. 10 * a / b;
  lesser = λ a b. if leb a b then a else b;
  at_most = leb;
}

tenth_scores-IsOrdered : IsOrdered tenth_scores
tenth_scores-IsOrdered = record {
  total = λ a b h. ground (arith, h);
  transitive = λ a b c h k. ground (arith, h, k);
}

abbrev first_paper : Paper
first_paper = record {
  source = text "semantic_scholar";
  title = text "On consensus";
  authors = text "A";
  abstract = text "finality";
  url = text "https://doi.org/10.1/x";
  published_date = [];
  category = text "cs.CR/cs.DC";
}

abbrev two_scored : List (Scored tenth_scores)
two_scored = (first_paper, 0) ∷ (first_paper, 5) ∷ []

choose-IsChoice_example :
    (sorted : List (Scored tenth_scores)) × Perm sorted two_scored
    × IsDescending tenth_scores tenth_scores-IsOrdered sorted
    × IsChoice tenth_scores tenth_scores-IsOrdered 10 sorted (choose tenth_scores two_scored)
choose-IsChoice_example = choose-IsChoice tenth_scores tenth_scores-IsOrdered two_scored

abbrev week : CrawlSetting tenth_scores
week = record {
  today = text "2026-01-04";
  number = λ n. text "1";
  show = λ n. text "0.50";
  lower = λ t. t;
  days_old = λ t. ok (pos 3);
}

abbrev no_file : Updater
no_file = record { seen_hashes = []; brain = none }

abbrev one_answer : Answers
one_answer = record {
  arxiv = (text "cs.CR", err connection_error) ∷ [];
  scholar =
      record {
        doi = text "10.1/x";
        paper_id = [];
        title = text "On consensus";
        author_names = text "A" ∷ [];
        year = [];
        abstract = text "finality";
      }
      ∷ [];
  with_code = [];
}

run-again_example :
    let (fetched, entries, after) = run zero_sha tenth_scores week one_answer no_file in
    let (refetched, second, last) = run zero_sha tenth_scores week one_answer after in
    Every
      (λ (x : Scored tenth_scores). Every (λ (y : Scored tenth_scores). y.0.url ≢ x.0.url) second)
      entries
run-again_example = run-again zero_sha tenth_scores week week one_answer one_answer no_file

load_seen_hashes-append_to_brain_example :
    let after = append_to_brain zero_sha tenth_scores week two_scored no_file in
    Every
      (λ (x : Scored tenth_scores).
        IsUrl x.0.url → is_seen zero_sha (load_seen_hashes zero_sha after.brain) x.0.url ≡ true)
      two_scored
load_seen_hashes-append_to_brain_example =
    load_seen_hashes-append_to_brain zero_sha tenth_scores week two_scored no_file

-- Claude has no key, OpenAI is down, Ollama answers.
abbrev client : Client
client = record { anthropic_key = []; openai_key = text "k"; ollama_url = text "u" }

abbrev one_service_left : Services ℕ
one_service_left = record {
  anthropic = λ key query n. (ok (text "c"), n);
  open_ai = λ key query n. (err connection_error, n + 1);
  ollama_api = λ url query n. (ok (text "o"), n + 1);
}

abbrev question : Prompt
question = record { prompt = text "q"; system = none; max_tokens = 10 }

abbrev start : Run ℕ
start = record { world = 0; attempts = []; slept = 0 }

ask-Answered_example :
    let (answer, after) = ask client one_service_left question start in
    (tried : List (Provider × Result Text)) × (after.attempts ≡ start.attempts ++ tried)
    × IsRun
        (claude ∷ claude ∷ claude ∷ openai ∷ openai ∷ openai ∷ ollama ∷ ollama ∷ ollama ∷ [])
        tried
        answer
    × (after.slept ≤ start.slept + 9)
ask-Answered_example = ask-Answered client one_service_left question start
