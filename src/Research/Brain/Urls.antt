-- ===== src/Research/Brain/Urls.antt =====
-- The URLs that are found in the file (`_load_seen_hashes`, tools/knowledge_updater.py, lines 51 to 61),
-- for a file of ASCII characters: the matches of `https?://[^\s\)\"]+` from left to right.
use bitchchain.Base.{
  ℕ, zero, suc, ◌≤◌, ◌≡◌, refl, sym, ap, ◌∙◌, inl, inr, Bool, true, false, not, ◌&&◌, ◌||◌, Option,
  none, some, List, [], ◌∷◌, ◌++◌, Text, Bytes, text, text_beq, text_beq_iff, arith, ◌==◌,
  if◌then◌else◌, length, drop, take, map, Bool-cases, length-append, beq_refl, text_eq,
}
use mathlib.Core.Path.{subst}
use mathlib.Core.List.{append_assoc}
use bitchchain.Base.Substring.{starts_with}
use bitchchain.Research.{is_space, url_hash, seen_in, is_seen}
use bitchchain.Research.Ranking.{Floats, Scored}
use bitchchain.Base.Every.{Every, Every-map}
use bitchchain.Research.Brain.{
  Updater, CrawlSetting, content_of, format_entry, format_entries, section_head, section_foot,
  section_of, append_to_brain,
}

abbrev pub is_url_char : ℕ → Bool
is_url_char c = not (is_space c || (c == 41) || (c == 34))

-- A character of the URL comes first.
abbrev pub url_char_first : Text → Bool
url_char_first [] = false
url_char_first (c ∷ s) = is_url_char c

abbrev pub begins_url : Text → Bool
begins_url s =
    (starts_with (text "http://") s && url_char_first (drop 7 s))
    || (starts_with (text "https://") s && url_char_first (drop 8 s))

-- The longest beginning of characters of a URL, and what comes behind it.
unfoldable pub url_part : Text → Text
url_part [] = []
url_part (c ∷ s) = let rest = url_part s in if is_url_char c then c ∷ rest else []

unfoldable pub behind_url : Text → Text
behind_url [] = []
behind_url (c ∷ s) = let rest = behind_url s in if is_url_char c then rest else c ∷ s

-- Every step consumes a character, so that the length of the text bounds the steps.
unfoldable pub find_urls : ℕ → Text → List Text
find_urls zero s = []
find_urls (suc steps) [] = []
find_urls (suc steps) (c ∷ s) =
    let found = url_part (c ∷ s) ∷ find_urls steps (behind_url (c ∷ s)) in
    let later = find_urls steps s in if begins_url (c ∷ s) then found else later

module _ (sha256 : Bytes → Bytes) where
  unfoldable pub load_seen_hashes : Option Text → List Text
  unfolding find_urls
  load_seen_hashes none = []
  load_seen_hashes (some content) = map (url_hash sha256) (find_urls (length content) content)

-- The URL is among those found, with as many steps as there are characters.
unfoldable listed_url : Text → List Text → Bool
listed_url u [] = false
listed_url u (x ∷ xs) = if text_beq u x then true else listed_url u xs

abbrev Finds : Text → Text → Type 0
Finds u s = (steps : ℕ) → length s ≤ steps → listed_url u (find_urls steps s) ≡ true

behind_url-stop :
    (sep : ℕ) (before rest : Text)
    → is_url_char sep ≡ false
    → behind_url (before ++ sep ∷ rest) ≡ behind_url before ++ sep ∷ rest
unfolding behind_url
behind_url-stop sep [] rest stop = rw stop refl
behind_url-stop sep (c ∷ before) rest stop = ground (arith, behind_url-stop sep before rest stop)

length-behind_url : (s : Text) → length (behind_url s) ≤ length s
unfolding behind_url
length-behind_url [] = omega arith
length-behind_url (c ∷ s) = ground (arith, length-behind_url s)

behind_url-char : (c : ℕ) (s : Text) → is_url_char c ≡ true → behind_url (c ∷ s) ≡ behind_url s
unfolding behind_url
behind_url-char c s h = rw h refl

begins_url-char : (c : ℕ) (s : Text) → begins_url (c ∷ s) ≡ true → is_url_char c ≡ true
unfolding starts_with
begins_url-char c s h = ground arith

begins_url-stop : (sep : ℕ) (s : Text) → is_url_char sep ≡ false → begins_url (sep ∷ s) ≡ false
begins_url-stop sep s stop = elim (Bool-cases (begins_url (sep ∷ s))) [
  | inr no_url ↦ no_url
  | inl here ↦ absurd (cc (begins_url-char sep s here, stop))
]

-- What is found behind a character that no URL has is found whatever stands before that character.
Finds-stop :
    (u : Text) (sep : ℕ) (before rest : Text)
    → is_url_char sep ≡ false
    → Finds u rest
    → Finds u (before ++ sep ∷ rest)
unfolding find_urls listed_url
Finds-stop u sep before rest stop h zero enough =
    absurd (omega (arith, enough, length-append before (sep ∷ rest)))
Finds-stop u sep [] rest stop h (suc steps) enough =
    rw (begins_url-stop sep rest stop) (h steps (omega (arith, enough)))
Finds-stop u sep (c ∷ before) rest stop h (suc steps) enough =
    elim (Bool-cases (begins_url (c ∷ (before ++ sep ∷ rest)))) [
      | inr no_url ↦ rw no_url (Finds-stop u sep before rest stop h steps (omega (arith, enough)))
      | inl here ↦
          let tail = before ++ sep ∷ rest in
          let cut : behind_url (c ∷ tail) ≡ behind_url before ++ sep ∷ rest =
            behind_url-char c tail (begins_url-char c tail here)
            ∙ behind_url-stop sep before rest stop in
          let shorter : length (behind_url before ++ sep ∷ rest) ≤ steps = omega (
            arith,
            enough,
            length-behind_url before,
            length-append before (sep ∷ rest),
            length-append (behind_url before) (sep ∷ rest),
          ) in
          let found = Finds-stop u sep (behind_url before) rest stop h steps shorter in
          rw (here, cut) (ground (arith, found))
    ]

Finds-behind : (u before rest : Text) → Finds u rest → Finds u (before ++ 32 ∷ rest)
Finds-behind u before rest h = Finds-stop u 32 before rest refl h

-- A URL of characters that the expression takes.
pub record IsUrl (url : Text) : Type 0 where
  pub begins : begins_url url ≡ true
  pub whole : behind_url url ≡ []

url_part-whole : (url rest : Text) → behind_url url ≡ [] → url_part (url ++ 32 ∷ rest) ≡ url
unfolding url_part behind_url
url_part-whole [] rest h = ground arith
url_part-whole (c ∷ url) rest h = ground (arith, url_part-whole url rest)

starts_with-append :
    (part s more : Text) → starts_with part s ≡ true → starts_with part (s ++ more) ≡ true
unfolding starts_with
starts_with-append [] s more h = refl
starts_with-append (c ∷ part) [] more h = absurd (cc h)
starts_with-append (c ∷ part) (d ∷ s) more h = ground (arith, starts_with-append part s more)

url_char_first-append :
    (n : ℕ) (s more : Text)
    → url_char_first (drop n s) ≡ true
    → url_char_first (drop n (s ++ more)) ≡ true
url_char_first-append zero [] more h = absurd (cc h)
url_char_first-append zero (c ∷ s) more h = h
url_char_first-append (suc n) [] more h = absurd (cc h)
url_char_first-append (suc n) (c ∷ s) more h = url_char_first-append n s more h

begins_url-append : (s more : Text) → begins_url s ≡ true → begins_url (s ++ more) ≡ true
begins_url-append s more h = ground (
  arith,
  starts_with-append (text "http://") s more,
  starts_with-append (text "https://") s more,
  url_char_first-append 7 s more,
  url_char_first-append 8 s more,
)

-- A URL in front of a space is found.
Finds-here : (url rest : Text) → IsUrl url → Finds url (url ++ 32 ∷ rest)
unfolding find_urls listed_url starts_with
Finds-here [] rest is_url steps enough = absurd (cc is_url.begins)
Finds-here (c ∷ url) rest is_url zero enough = absurd (omega (arith, enough))
Finds-here (c ∷ url) rest is_url (suc steps) enough =
    rw
      (
        begins_url-append (c ∷ url) (32 ∷ rest) is_url.begins,
        url_part-whole (c ∷ url) rest is_url.whole,
        beq_refl {K = Text} (c ∷ url),
      )
      refl

abbrev bar : Text
bar = 124 ∷ []

module _ (sha256 : Bytes → Bytes) (floats : Floats) (setting : CrawlSetting floats) where
  -- What stands in an entry behind the URL, with what follows the entry.
  abbrev entry_tail : Scored floats → Text → Text
  entry_tail (paper, score) rest =
      bar
      ++ 32
        ∷ (take 150 paper.abstract
            ++ (text "... | Score: "
                ++ (setting.show score
                    ++ (text " | Added: " ++ (setting.today ++ (text " |\n" ++ rest))))))

  format_entry-append :
      (x : Scored floats) (rest : Text)
      → format_entry sha256 floats setting x ++ rest
        ≡ text "| "
          ++ (take 80 x.0.title
              ++ (text " | "
                  ++ (take 40 x.0.authors
                      ++ (text " | "
                          ++ (take 7 x.0.published_date
                              ++ (text " | "
                                  ++ (x.0.source
                                      ++ (text " | " ++ (x.0.url ++ 32 ∷ entry_tail x rest)))))))))
  unfolding format_entry
  format_entry-append x rest = simp (append_assoc {A = ℕ}) refl

  entry-Finds :
      (x : Scored floats) (rest : Text)
      → IsUrl x.0.url
      → Finds x.0.url (format_entry sha256 floats setting x ++ rest)
  entry-Finds x rest is_url =
      let u = x.0.url in
      subst (Finds u) (sym (format_entry-append x rest)) (
        Finds-behind u bar _ (
          Finds-behind u (take 80 x.0.title) _ (
            Finds-behind u bar _ (
              Finds-behind u (take 40 x.0.authors) _ (
                Finds-behind u bar _ (
                  Finds-behind u (take 7 x.0.published_date) _ (
                    Finds-behind u bar _ (
                      Finds-behind u x.0.source _
                        (Finds-behind u bar _ (Finds-here u (entry_tail x rest) is_url))))))))))

  -- An entry without its line feed.
  abbrev entry_line : Scored floats → Text
  entry_line (paper, score) =
      text "| "
      ++ (take 80 paper.title
          ++ (text " | "
              ++ (take 40 paper.authors
                  ++ (text " | "
                      ++ (take 7 paper.published_date
                          ++ (text " | "
                              ++ (paper.source
                                  ++ (text " | "
                                      ++ (paper.url
                                          ++ (text " | "
                                              ++ (take 150 paper.abstract
                                                  ++ (text "... | Score: "
                                                      ++ (setting.show score
                                                          ++ (text " | Added: "
                                                            ++ (setting.today
                                                            ++ text " |")))))))))))))))

  format_entry-line :
      (x : Scored floats) (rest : Text)
      → format_entry sha256 floats setting x ++ rest ≡ entry_line x ++ 10 ∷ rest
  unfolding format_entry
  format_entry-line x rest = simp (append_assoc {A = ℕ}) refl

  -- Every URL of an entry is found in the table.
  entries-Finds :
      (entries : List (Scored floats)) (rest : Text)
      → Every
          (λ (x : Scored floats).
            IsUrl x.0.url → Finds x.0.url (format_entries sha256 floats setting entries ++ rest))
          entries
  unfolding format_entries Every
  entries-Finds [] rest = tt
  entries-Finds (x ∷ xs) rest =
      let later = format_entries sha256 floats setting xs ++ rest in
      let shape =
        append_assoc (format_entry sha256 floats setting x)
          (format_entries sha256 floats setting xs) rest in
      (
        λ is_url. subst (Finds x.0.url) (sym shape) (entry-Finds x later is_url),
        Every-map (λ (y : Scored floats). IsUrl y.0.url → Finds y.0.url later)
            (λ (y : Scored floats).
              IsUrl y.0.url → Finds y.0.url (format_entries sha256 floats setting (x ∷ xs) ++ rest))
            xs
            (λ y found is_url.
              subst (Finds y.0.url) (sym (shape ∙ format_entry-line x later))
                (Finds-stop y.0.url 10 (entry_line x) later refl (found is_url)))
            (entries-Finds xs rest),
      )

  seen-listed :
      (u : Text) (urls : List Text)
      → listed_url u urls ≡ true
      → seen_in (url_hash sha256 u) (map (url_hash sha256) urls) ≡ true
  unfolding listed_url seen_in
  seen-listed u [] h = absurd (cc h)
  seen-listed u (x ∷ urls) h = elim (Bool-cases (text_beq u x)) [
    | inl same ↦
        let hashes = ap (url_hash sha256) ((text_beq_iff u x).0 same) in
        rw ((text_beq_iff (url_hash sha256 u) (url_hash sha256 x)).1 hashes) refl
    | inr other ↦ ground (arith, seen-listed u urls (rw other at h))
  ]

  section-Finds :
      (entries : List (Scored floats)) (content : Text)
      → Every
          (λ (x : Scored floats).
            IsUrl x.0.url → Finds x.0.url (content ++ section_of sha256 floats setting entries))
          entries
  unfolding section_of
  section-Finds entries content =
      let head = section_head sha256 floats setting (length entries) in
      let foot = section_foot sha256 floats setting (length entries) in
      let table = format_entries sha256 floats setting entries ++ foot in
      Every-map (λ (x : Scored floats). IsUrl x.0.url → Finds x.0.url table)
        (λ (x : Scored floats).
          IsUrl x.0.url → Finds x.0.url (content ++ section_of sha256 floats setting entries))
        entries
        (λ x found is_url.
          subst (Finds x.0.url) (append_assoc content head (10 ∷ table))
            (Finds-stop x.0.url 10 (content ++ head) table refl (found is_url)))
        (entries-Finds entries foot)

  -- After a restart the crawler knows every URL that it has written into the file, where the URL
  -- begins with http:// or https:// and has no whitespace, no parenthesis that closes and no
  -- quotation mark: it is found in the file, whatever else stands there.
  pub load_seen_hashes-append_to_brain :
      (entries : List (Scored floats)) (updater : Updater)
      → let after = append_to_brain sha256 floats setting entries updater in
        Every
          (λ (x : Scored floats).
            IsUrl x.0.url → is_seen sha256 (load_seen_hashes sha256 after.brain) x.0.url ≡ true)
          entries
  unfolding append_to_brain load_seen_hashes is_seen
  load_seen_hashes-append_to_brain entries updater =
      let content = content_of sha256 floats updater.brain in
      let all = content ++ section_of sha256 floats setting entries in
      Every-map (λ (x : Scored floats). IsUrl x.0.url → Finds x.0.url all)
        (λ (x : Scored floats).
          IsUrl x.0.url
          → seen_in (url_hash sha256 x.0.url) (map (url_hash sha256) (find_urls (length all) all))
            ≡ true)
        entries
        (λ x found is_url.
          seen-listed x.0.url (find_urls (length all) all)
            (found is_url (length all) (omega arith)))
        (section-Finds entries content)
