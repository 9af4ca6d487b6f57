-- ===== src/Research.antt =====
-- The crawler for papers (`KnowledgeUpdater`, tools/knowledge_updater.py): the papers that the three
-- services offer, and which of them are new. URLs are ASCII, so that their bytes are their
-- characters. What a service answers is a parameter, as the XML and JSON libraries read it, with the
-- types that the service documents.
pub mod Ranking
pub mod Brain
use bitchchain.Base.{
  ℕ, zero, suc, ◌+◌, Bool, true, false, not, ◌&&◌, ◌||◌, Option, none, some, List, [], ◌∷◌, ◌++◌,
  map, reverse, Text, Bytes, text, text_beq, leb, ◌==◌, if◌then◌else◌, length, take, Result, ok,
  err, attribute_error, type_error, ◌>>=◌, hex,
}

pub record Paper : Type 0 where
  pub source : Text
  pub title : Text
  pub authors : Text
  pub abstract : Text
  pub url : Text
  pub published_date : Text
  pub category : Text

-- `str.strip`, for ASCII
abbrev pub is_space : ℕ → Bool
is_space c = (c == 32) || (leb 9 c && leb c 13) || (leb 28 c && leb c 31)

unfoldable pub strip_left : Text → Text
strip_left [] = []
strip_left (c ∷ s) = let rest = strip_left s in if is_space c then rest else c ∷ s

abbrev pub strip : Text → Text
strip s = reverse (strip_left (reverse (strip_left s)))

-- Membership in the set of hashes.
unfoldable pub seen_in : Text → List Text → Bool
seen_in h [] = false
seen_in h (x ∷ xs) = if text_beq h x then true else seen_in h xs

-- `", ".join(parts)`
unfoldable pub join_comma : List Text → Text
join_comma [] = []
join_comma (a ∷ []) = a
join_comma (a ∷ b ∷ rest) = a ++ (text ", " ++ join_comma (b ∷ rest))

-- An entry of arXiv's feed: each element may be missing, and may be empty.
pub record ArxivEntry : Type 0 where
  pub id_el : Option (Option Text)
  pub title_el : Option (Option Text)
  pub abstract_el : Option (Option Text)
  pub published_el : Option (Option Text)
  pub author_names : List (Option Text)

-- `(element.text or "")`
abbrev pub text_or_empty : Option (Option Text) → Result Text
text_or_empty none = err attribute_error
text_or_empty (some none) = ok []
text_or_empty (some (some t)) = ok t

-- The names of authors, of which none may be empty.
unfoldable pub all_names : List (Option Text) → Result (List Text)
all_names [] = ok []
all_names (none ∷ names) = err type_error
all_names (some n ∷ names) = all_names names >>= λ rest. ok (n ∷ rest)

abbrev pub newline_to_space : ℕ → ℕ
newline_to_space c = if c == 10 then 32 else c

-- A paper of Semantic Scholar, and one of Papers with Code.
pub record ScholarEntry : Type 0 where
  pub doi : Text
  pub paper_id : Text
  pub title : Text
  pub author_names : List Text
  pub year : Text
  pub abstract : Text

pub record CodeEntry : Type 0 where
  pub url_abs : Text
  pub paper_pdf : Text
  pub title : Text
  pub author_names : List Text
  pub abstract : Text
  pub published : Text

-- `a or b`
abbrev pub or_else : Text → Text → Text
or_else [] b = b
or_else (c ∷ s) b = c ∷ s

-- What the services answer during a run; a failed request to one of the last two has no papers.
pub record Answers : Type 0 where
  pub arxiv : List (Text × Result (List ArxivEntry))
  pub scholar : List ScholarEntry
  pub with_code : List CodeEntry

module _ (sha256 : Bytes → Bytes) where
  unfoldable pub url_hash : Text → Text
  url_hash url = take 16 (hex (sha256 (strip url)))

  -- `_is_seen`
  unfoldable pub is_seen : List Text → Text → Bool
  unfolding seen_in
  is_seen seen url = seen_in (url_hash url) seen

  -- `_mark_seen`
  unfoldable pub mark_seen : Text → List Text → List Text
  mark_seen url seen = url_hash url ∷ seen

  abbrev pub arxiv_paper : Text → ArxivEntry → Text → Result Paper
  arxiv_paper category entry url = text_or_empty entry.title_el >>= λ title.
      all_names (take 5 entry.author_names) >>= λ names.
      text_or_empty entry.abstract_el >>= λ abstract.
      text_or_empty entry.published_el >>= λ published. ok (record {
        source = text "arxiv";
        title = map newline_to_space (strip title);
        authors = join_comma names;
        abstract = take 500 (strip abstract);
        url = url;
        published_date = take 10 (strip published);
        category = category;
      })

  abbrev pub keep_paper : Result Paper → List Paper → List Paper
  keep_paper (err e) rest = []
  keep_paper (ok p) rest = p ∷ rest

  -- One entry, in front of what the rest of the feed gives. What raises ends the loop.
  abbrev pub take_entry :
      List Text → Text → ArxivEntry → Option (Option Text) → List Paper → List Paper
  take_entry seen category entry none rest = rest
  take_entry seen category entry (some none) rest = []
  take_entry seen category entry (some (some id)) rest =
      if is_seen seen (strip id)
      then rest
      else keep_paper (arxiv_paper category entry (strip id)) rest

  -- The loop over the entries of one category.
  unfoldable pub arxiv_papers : List Text → Text → List ArxivEntry → List Paper
  arxiv_papers seen category [] = []
  arxiv_papers seen category (entry ∷ entries) =
      take_entry seen category entry entry.id_el (arxiv_papers seen category entries)

  -- `fetch_arxiv`, on the answers of the service for the categories; a request may fail.
  unfoldable pub fetch_arxiv : List Text → List (Text × Result (List ArxivEntry)) → List Paper
  unfolding arxiv_papers
  fetch_arxiv seen [] = []
  fetch_arxiv seen ((category, answer) ∷ rest) = elim answer [
    | err e ↦ fetch_arxiv seen rest
    | ok entries ↦ arxiv_papers seen category entries ++ fetch_arxiv seen rest
  ]

  abbrev pub scholar_url : ScholarEntry → Text
  scholar_url entry = elim entry.doi [
    | _ ∷ _ ↦ text "https://doi.org/" ++ entry.doi
    | [] ↦ text "https://semanticscholar.org/paper/" ++ entry.paper_id
  ]

  abbrev pub scholar_date : Text → Text
  scholar_date [] = []
  scholar_date (c ∷ year) = (c ∷ year) ++ text "-01-01"

  abbrev pub scholar_paper : ScholarEntry → Paper
  scholar_paper entry = record {
    source = text "semantic_scholar";
    title = entry.title;
    authors = join_comma (take 5 entry.author_names);
    abstract = take 500 entry.abstract;
    url = scholar_url entry;
    published_date = scholar_date entry.year;
    category = text "cs.CR/cs.DC";
  }

  -- `fetch_semantic_scholar`
  unfoldable pub fetch_semantic_scholar : List Text → List ScholarEntry → List Paper
  fetch_semantic_scholar seen [] = []
  fetch_semantic_scholar seen (entry ∷ entries) =
      let rest = fetch_semantic_scholar seen entries in
      if is_seen seen (scholar_url entry) then rest else scholar_paper entry ∷ rest

  abbrev pub code_paper : CodeEntry → Paper
  code_paper entry = record {
    source = text "papers_with_code";
    title = entry.title;
    authors = join_comma (take 5 entry.author_names);
    abstract = take 500 entry.abstract;
    url = or_else entry.url_abs entry.paper_pdf;
    published_date = take 10 entry.published;
    category = text "cs.CR";
  }

  abbrev pub is_blank : Text → Bool
  is_blank [] = true
  is_blank (c ∷ s) = false

  -- `fetch_papers_with_code`
  unfoldable pub fetch_papers_with_code : List Text → List CodeEntry → List Paper
  fetch_papers_with_code seen [] = []
  fetch_papers_with_code seen (entry ∷ entries) =
      let rest = fetch_papers_with_code seen entries in
      let url = or_else entry.url_abs entry.paper_pdf in
      if is_blank url || is_seen seen url then rest else code_paper entry ∷ rest

  -- The candidates of a run.
  unfoldable pub fetch_all : List Text → Answers → List Paper
  unfolding fetch_arxiv fetch_semantic_scholar fetch_papers_with_code
  fetch_all seen answers =
      fetch_arxiv seen answers.arxiv
      ++ (fetch_semantic_scholar seen answers.scholar
          ++ fetch_papers_with_code seen answers.with_code)
