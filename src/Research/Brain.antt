-- ===== src/Research/Brain.antt =====
-- The file that the crawler writes, and its runs (`_append_to_brain`, `run` and `verify_live_crawl`,
-- tools/knowledge_updater.py, lines 193 to 264 and 286 to 339). The scanning of the file for URLs is in
-- Urls. What depends on the day is written into the file as `today`, and a score as `show` prints it.
pub mod Urls
pub mod Rerun
use bitchchain.Base.{
  ℕ, zero, suc, ◌+◌, Bool, true, false, not, ◌&&◌, Option, none, some, List, [], ◌∷◌, ◌++◌, Text,
  Bytes, text, leb, ltb, ◌==◌, if◌then◌else◌, length, take, ℤ, Result,
}
use bitchchain.Research.{Paper, Answers, mark_seen, fetch_all}
use bitchchain.Research.Ranking.{Floats, Scored, score_all, choose}

-- The updater: the hashes that it has seen, and the file, where it exists.
pub record Updater : Type 0 where
  pub seen_hashes : List Text
  pub brain : Option Text

-- What is fixed for a run: the day, how a number and a score are printed, `str.lower`, and the age
-- of a paper in days.
pub record CrawlSetting (floats : Floats) : Type 0 where
  pub today : Text
  pub number : ℕ → Text
  pub show : floats.Float → Text
  pub lower : Text → Text
  pub days_old : Text → Result ℤ

module _ (sha256 : Bytes → Bytes) (floats : Floats) where
  -- `_format_entry`
  unfoldable pub format_entry : CrawlSetting floats → Scored floats → Text
  format_entry setting (paper, score) =
      text "| "
      ++ (take 80 paper.title
          ++ (text " | "
              ++ (take 40 paper.authors
                  ++ (text " | "
                      ++ (take 7 paper.published_date
                          ++ (text " | "
                              ++ (paper.source
                                  ++ (text " | "
                                      ++ (paper.url
                                          ++ (text " | "
                                              ++ (take 150 paper.abstract
                                                  ++ (text "... | Score: "
                                                      ++ (setting.show score
                                                          ++ (text " | Added: "
                                                            ++ (setting.today
                                                            ++ text " |\n")))))))))))))))

  unfoldable pub format_entries : CrawlSetting floats → List (Scored floats) → Text
  unfolding format_entry
  format_entries setting [] = []
  format_entries setting (x ∷ xs) = format_entry setting x ++ format_entries setting xs

  -- The lines of a section in front of its entries, without the last line feed.
  unfoldable pub section_head : CrawlSetting floats → ℕ → Text
  section_head setting count =
      text "\n### "
      ++ (setting.today
          ++ (text " Knowledge Update\n*"
              ++ (setting.number count
                  ++ (text " new papers added by automated crawl*\n\n"
                      ++ (text "| Title | Authors | Published | Source | URL | Key Finding | |\n"
                          ++ text
                              "|-------|---------|-----------|--------|-----|-------------|---|")))))

  unfoldable pub section_foot : CrawlSetting floats → ℕ → Text
  section_foot setting count =
      text "\n**Update log entry**: "
      ++ (setting.number count ++ text " new entries added | Next run: +7 days\n")

  unfoldable pub section_of : CrawlSetting floats → List (Scored floats) → Text
  unfolding format_entries section_head section_foot
  section_of setting entries =
      section_head setting (length entries)
      ++ 10 ∷ (format_entries setting entries ++ section_foot setting (length entries))

  -- The content of the file, which is made where it does not exist.
  abbrev pub content_of : Option Text → Text
  content_of none = text "# SECOND-KNOWLEDGE-BRAIN.md\n\n"
  content_of (some content) = content

  unfoldable pub mark_all : List (Scored floats) → List Text → List Text
  mark_all [] seen = seen
  mark_all ((paper, score) ∷ entries) seen = mark_all entries (mark_seen sha256 paper.url seen)

  -- `_append_to_brain`
  unfoldable pub append_to_brain : CrawlSetting floats → List (Scored floats) → Updater → Updater
  unfolding section_of mark_all
  append_to_brain setting entries updater = record {
    seen_hashes = mark_all entries updater.seen_hashes;
    brain = some (content_of updater.brain ++ section_of setting entries);
  }

  -- `if new_entries: …`
  abbrev pub keep_entries : CrawlSetting floats → List (Scored floats) → Updater → Updater
  keep_entries setting [] updater = updater
  keep_entries setting (x ∷ xs) updater = append_to_brain setting (x ∷ xs) updater

  -- `run`: the number of candidates, the new entries, and the updater afterwards.
  unfoldable pub run : CrawlSetting floats → Answers → Updater → ℕ × List (Scored floats) × Updater
  unfolding fetch_all choose
  run setting answers updater =
      let candidates = fetch_all sha256 updater.seen_hashes answers in
      let new_entries =
        choose floats (score_all floats setting.lower setting.days_old candidates) in
      (length candidates, new_entries, keep_entries setting new_entries updater)

  pub record Report : Type 0 where
    pub entries_after_crawl1 : ℕ
    pub entries_after_crawl2 : ℕ
    pub duplicates_found : ℕ
    pub passed : Bool

  -- `verify_live_crawl`, with what the services answer to the first and to the second run; `lines` counts
  -- the lines of the file.
  unfoldable pub verify_live_crawl :
      (Text → ℕ) → CrawlSetting floats → Answers → Answers → Updater → Report × Updater
  unfolding run
  verify_live_crawl lines setting first again updater =
      let count : Option Text → ℕ =
        λ brain. elim brain [ none ↦ 0 | some content ↦ lines content ] in
      let (fetched, new_entries, after) = run setting first updater in
      let (refetched, second, last) = run setting again after in
      let grown = ltb (count updater.brain) (count after.brain) in
      (
        record {
          entries_after_crawl1 = length new_entries;
          entries_after_crawl2 = length second;
          duplicates_found = length second;
          passed = leb 5 (length new_entries) && (length second == 0) && grown;
        },
        last,
      )
