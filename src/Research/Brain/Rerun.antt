-- ===== src/Research/Brain/Rerun.antt =====
-- One run after another (`run` and `verify_live_crawl`, tools/knowledge_updater.py).
use bitchchain.Base.{
  ℕ, zero, suc, ◌≡◌, ◌≢◌, refl, ap, ◌∙◌, inl, inr, true, false, ◌||◌, Option, none, some, List, [],
  ◌∷◌, ◌++◌, Text, Bytes, arith, length, take, ℤ, Result, ok, err, Bool-cases, beq_refl, text_eq,
}
use bitchchain.Research.{
  Paper, Answers, ArxivEntry, ScholarEntry, CodeEntry, strip, seen_in, url_hash, is_seen, mark_seen,
  arxiv_paper, keep_paper, take_entry, arxiv_papers, fetch_arxiv, fetch_semantic_scholar,
  fetch_papers_with_code, fetch_all, scholar_url, or_else, is_blank,
}
use bitchchain.Research.Ranking.{
  Floats, Scored, by_score, is_relevant, relevant, score_all, choose, max_new_entries_per_run,
}
use bitchchain.Base.Every.{Every, Every-append, Every-map}
use bitchchain.Research.Ranking.Chosen.{insert_scored-Every}
use bitchchain.Research.Brain.{Updater, CrawlSetting, mark_all, append_to_brain, keep_entries, run}

module _ (sha256 : Bytes → Bytes) (seen : List Text) where
  abbrev IsUnseen : Paper → Type 0
  IsUnseen p = is_seen sha256 seen p.url ≡ false

  arxiv_paper-url :
      (category : Text) (entry : ArxivEntry) (url : Text) (p : Paper)
      → arxiv_paper sha256 category entry url ≡ ok p
      → p.url ≡ url
  arxiv_paper-url category entry url p h = ground arith

  keep_paper-IsUnseen :
      (category : Text) (entry : ArxivEntry) (url : Text) (out : Result Paper) (rest : List Paper)
      → arxiv_paper sha256 category entry url ≡ out
      → is_seen sha256 seen url ≡ false
      → Every IsUnseen rest
      → Every IsUnseen (keep_paper sha256 out rest)
  unfolding Every
  keep_paper-IsUnseen category entry url (err e) rest at new all = tt
  keep_paper-IsUnseen category entry url (ok p) rest at new all =
      (ap (is_seen sha256 seen) (arxiv_paper-url category entry url p at) ∙ new, all)

  take_entry-IsUnseen :
      (category : Text) (entry : ArxivEntry) (id : Option (Option Text)) (rest : List Paper)
      → Every IsUnseen rest
      → Every IsUnseen (take_entry sha256 seen category entry id rest)
  unfolding Every
  take_entry-IsUnseen category entry none rest all = all
  take_entry-IsUnseen category entry (some none) rest all = tt
  take_entry-IsUnseen category entry (some (some id)) rest all =
      elim (Bool-cases (is_seen sha256 seen (strip id))) [
        | inl old ↦ rw old all
        | inr new ↦ rw new (
            keep_paper-IsUnseen category entry (strip id)
              (arxiv_paper sha256 category entry (strip id)) rest refl new all)
      ]

  arxiv_papers-IsUnseen :
      (category : Text) (entries : List ArxivEntry)
      → Every IsUnseen (arxiv_papers sha256 seen category entries)
  unfolding arxiv_papers Every
  arxiv_papers-IsUnseen category [] = tt
  arxiv_papers-IsUnseen category (entry ∷ entries) =
      take_entry-IsUnseen category entry entry.id_el (arxiv_papers sha256 seen category entries)
        (arxiv_papers-IsUnseen category entries)

  fetch_arxiv-IsUnseen :
      (answers : List (Text × Result (List ArxivEntry)))
      → Every IsUnseen (fetch_arxiv sha256 seen answers)
  unfolding fetch_arxiv Every
  fetch_arxiv-IsUnseen [] = tt
  fetch_arxiv-IsUnseen ((category, err e) ∷ rest) = fetch_arxiv-IsUnseen rest
  fetch_arxiv-IsUnseen ((category, ok entries) ∷ rest) =
      Every-append IsUnseen (arxiv_papers sha256 seen category entries)
        (fetch_arxiv sha256 seen rest) (arxiv_papers-IsUnseen category entries)
        (fetch_arxiv-IsUnseen rest)

  scholar-IsUnseen :
      (entries : List ScholarEntry) → Every IsUnseen (fetch_semantic_scholar sha256 seen entries)
  unfolding fetch_semantic_scholar Every
  scholar-IsUnseen [] = tt
  scholar-IsUnseen (entry ∷ entries) =
      elim (Bool-cases (is_seen sha256 seen (scholar_url sha256 entry))) [
        | inl old ↦ rw old (scholar-IsUnseen entries)
        | inr new ↦ rw new (new, scholar-IsUnseen entries)
      ]

  code-IsUnseen :
      (entries : List CodeEntry) → Every IsUnseen (fetch_papers_with_code sha256 seen entries)
  unfolding fetch_papers_with_code Every
  code-IsUnseen [] = tt
  code-IsUnseen (entry ∷ entries) =
      let url = or_else entry.url_abs entry.paper_pdf in
      let drops = is_blank sha256 url || is_seen sha256 seen url in
      elim (Bool-cases drops) [
        | inl dropped ↦ rw dropped (code-IsUnseen entries)
        | inr kept ↦ rw kept (ground (arith, kept), code-IsUnseen entries)
      ]

  fetch_all-IsUnseen : (answers : Answers) → Every IsUnseen (fetch_all sha256 seen answers)
  unfolding fetch_all
  fetch_all-IsUnseen answers =
      let arxiv = fetch_arxiv sha256 seen answers.arxiv in
      let scholar = fetch_semantic_scholar sha256 seen answers.scholar in
      let code = fetch_papers_with_code sha256 seen answers.with_code in
      Every-append IsUnseen arxiv (scholar ++ code) (fetch_arxiv-IsUnseen answers.arxiv) (
        Every-append IsUnseen scholar code (scholar-IsUnseen answers.scholar)
          (code-IsUnseen answers.with_code))

-- What holds of all candidates holds of the new entries.
module _ (floats : Floats) (P : Paper → Type 0) where
  abbrev OfPaper : Scored floats → Type 0
  OfPaper x = P x.0

  score_all-Every :
      (lower : Text → Text) (days_old : Text → Result ℤ) (papers : List Paper)
      → Every P papers
      → Every OfPaper (score_all floats lower days_old papers)
  unfolding Every
  score_all-Every lower days_old [] h = tt
  score_all-Every lower days_old (p ∷ ps) h = (h.0, score_all-Every lower days_old ps h.1)

  by_score-Every :
      (xs : List (Scored floats)) → Every OfPaper xs → Every OfPaper (by_score floats xs)
  unfolding by_score Every
  by_score-Every [] h = tt
  by_score-Every (x ∷ xs) h =
      insert_scored-Every floats OfPaper x (by_score floats xs) h.0 (by_score-Every xs h.1)

  relevant-Every :
      (n : ℕ) (xs : List (Scored floats))
      → Every OfPaper xs
      → Every OfPaper (relevant floats (take n xs))
  unfolding relevant Every
  relevant-Every zero xs h = tt
  relevant-Every (suc n) [] h = tt
  relevant-Every (suc n) (x ∷ xs) h = elim (Bool-cases (is_relevant floats x)) [
    | inl good ↦ rw good (h.0, relevant-Every n xs h.1)
    | inr low ↦ rw low (relevant-Every n xs h.1)
  ]

  choose-Every : (xs : List (Scored floats)) → Every OfPaper xs → Every OfPaper (choose floats xs)
  unfolding choose
  choose-Every xs h =
      relevant-Every max_new_entries_per_run (by_score floats xs) (by_score-Every xs h)

module _ (sha256 : Bytes → Bytes) where
  seen_in-mark :
      (h url : Text) (seen : List Text)
      → seen_in h seen ≡ true
      → seen_in h (mark_seen sha256 url seen) ≡ true
  unfolding mark_seen seen_in
  seen_in-mark h url seen old = ground arith

  is_seen-mark :
      (url : Text) (seen : List Text) → is_seen sha256 (mark_seen sha256 url seen) url ≡ true
  unfolding is_seen mark_seen seen_in
  is_seen-mark url seen = rw (beq_refl (url_hash sha256 url)) refl

length-none : {A : Type 0} (xs : List A) → length xs ≡ 0 → xs ≡ []
length-none [] h = refl
length-none (x ∷ xs) h = absurd (omega (arith, h))

module _ (sha256 : Bytes → Bytes) (floats : Floats) where
  mark_all-keeps :
      (entries : List (Scored floats)) (h : Text) (seen : List Text)
      → seen_in h seen ≡ true
      → seen_in h (mark_all sha256 floats entries seen) ≡ true
  unfolding mark_all
  mark_all-keeps [] h seen old = old
  mark_all-keeps ((p, score) ∷ entries) h seen old =
      mark_all-keeps entries h (mark_seen sha256 p.url seen) (seen_in-mark sha256 h p.url seen old)

  abbrev IsEntered : List Text → Scored floats → Type 0
  IsEntered seen x = is_seen sha256 seen x.0.url ≡ true

  mark_all-IsEntered :
      (entries : List (Scored floats)) (seen : List Text)
      → Every (IsEntered (mark_all sha256 floats entries seen)) entries
  unfolding mark_all Every is_seen
  mark_all-IsEntered [] seen = tt
  mark_all-IsEntered ((p, score) ∷ entries) seen = (
    mark_all-keeps entries (url_hash sha256 p.url) (mark_seen sha256 p.url seen)
        (is_seen-mark sha256 p.url seen),
    mark_all-IsEntered entries (mark_seen sha256 p.url seen),
  )

  keep_entries-IsEntered :
      (setting : CrawlSetting floats) (entries : List (Scored floats)) (updater : Updater)
      → Every (IsEntered (keep_entries sha256 floats setting entries updater).seen_hashes) entries
  unfolding append_to_brain Every
  keep_entries-IsEntered setting [] updater = tt
  keep_entries-IsEntered setting (x ∷ xs) updater = mark_all-IsEntered (x ∷ xs) updater.seen_hashes

  run-IsEntered :
      (setting : CrawlSetting floats) (answers : Answers) (updater : Updater)
      → let (fetched, entries, after) = run sha256 floats setting answers updater in
        Every (IsEntered after.seen_hashes) entries
  unfolding run
  run-IsEntered setting answers updater =
      keep_entries-IsEntered setting (run sha256 floats setting answers updater).1 updater

  run-IsUnseen :
      (setting : CrawlSetting floats) (answers : Answers) (updater : Updater)
      → Every
          (λ (x : Scored floats). is_seen sha256 updater.seen_hashes x.0.url ≡ false)
          (run sha256 floats setting answers updater).1
  unfolding run
  run-IsUnseen setting answers updater =
      let papers = fetch_all sha256 updater.seen_hashes answers in
      let P : Paper → Type 0 = λ p. is_seen sha256 updater.seen_hashes p.url ≡ false in
      choose-Every floats P (score_all floats setting.lower setting.days_old papers) (
        score_all-Every floats P setting.lower setting.days_old papers
          (fetch_all-IsUnseen sha256 updater.seen_hashes answers))

  -- Whatever the services answer, no URL that a run has entered is entered again by the next run.
  pub run-again :
      (setting later : CrawlSetting floats) (answers again : Answers) (updater : Updater)
      → let (fetched, entries, after) = run sha256 floats setting answers updater in
        let (refetched, second, last) = run sha256 floats later again after in
        Every
          (λ (x : Scored floats). Every (λ (y : Scored floats). y.0.url ≢ x.0.url) second)
          entries
  run-again setting later answers again updater =
      let after = (run sha256 floats setting answers updater).2 in
      let second = (run sha256 floats later again after).1 in
      Every-map (IsEntered after.seen_hashes)
        (λ (x : Scored floats). Every (λ (y : Scored floats). y.0.url ≢ x.0.url) second)
        (run sha256 floats setting answers updater).1
        (λ x entered.
          Every-map (λ (y : Scored floats). is_seen sha256 after.seen_hashes y.0.url ≡ false)
            (λ (y : Scored floats). y.0.url ≢ x.0.url) second
            (λ y new same. absurd (cc (new, entered, ap (is_seen sha256 after.seen_hashes) same)))
            (run-IsUnseen later again after))
        (run-IsEntered setting answers updater)
