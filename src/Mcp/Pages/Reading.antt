-- ===== src/Mcp/Pages/Reading.antt =====
-- What an agent gets of a transcript through the pages of odoo_sheller/mcp.py.
use native.Mathlib.Decide.{dec_lt}
use odoo_sheller.Common.{
  ℕ, zero, suc, ◌+◌, ◌-◌, ◌≤◌, ◌<◌, String, ◌≡◌, refl, sym, ap, ◌∙◌, subst, false, ◌||◌, Option,
  none, some, List, [], ◌∷◌, ◌++◌, arith, is_some, length, drop, join, text_length,
}
use odoo_sheller.Mcp.Pages.{between, asked_stretch, stretch, Page, page_text, journal_page}
use odoo_sheller.Mcp.Pages.Stretch.{
  take_all, between-rest, asked_stretch-progress, asked_stretch-end, page_text-le,
}

-- Page after page, each from the line behind the one before, until a page has no line.
unfoldable pub read_on : ℕ → ℕ → ℕ → List String → ℕ → List Page
read_on limit size zero lines n = []
read_on limit size (suc f) lines n =
    let p = journal_page limit size lines (some (suc n)) none in
    elim p.last [ none ↦ [] | some m ↦ p ∷ read_on limit size f lines m ]

-- The lines that a page says it shows.
unfoldable pub shown_lines : List String → Page → List String
shown_lines lines p = elim p.first [
  | none ↦ []
  | some a ↦ elim p.last [ none ↦ [] | some b ↦ between (a - 1) b lines ]
]

unfoldable pub all_shown : List String → List Page → List String
all_shown lines [] = []
all_shown lines (p ∷ ps) = shown_lines lines p ++ all_shown lines ps

page_of :
    (limit size n : ℕ) (lines : List String)
    → n < length lines
    → let p = journal_page limit size lines (some (suc n)) none in
      (m : ℕ) × (n < m)
      × (m ≤ length lines)
      × (p.last ≡ some m)
      × (shown_lines lines p ≡ between n m lines)
unfolding journal_page stretch shown_lines
page_of limit size n lines h =
    let s = asked_stretch limit lines (some (suc n)) none in
    let (starts, goes, ends) = asked_stretch-progress limit n lines h in
    (s.1, goes, ends, ground (arith, starts, goes), ground (arith, starts, goes))

no_page :
    (limit size n : ℕ) (lines : List String)
    → length lines ≤ n
    → (journal_page limit size lines (some (suc n)) none).last ≡ none
unfolding journal_page stretch
no_page limit size n lines h = rw (asked_stretch-end limit n lines h)

drop-past {ℓ} : {A : Type ℓ} (n : ℕ) (xs : List A) → length xs ≤ n → drop n xs ≡ []
drop-past zero [] h = refl
drop-past zero (x ∷ xs) h = absurd (omega (arith, h))
drop-past (suc n) [] h = refl
drop-past (suc n) (x ∷ xs) h = drop-past n xs (omega (arith, h))

read_on-rest :
    (limit size f : ℕ) (lines : List String) (n : ℕ)
    → length lines < f + n
    → all_shown lines (read_on limit size f lines n) ≡ drop n lines
unfolding read_on all_shown
read_on-rest limit size zero lines n h = sym (drop-past n lines (omega (arith, h)))
read_on-rest limit size (suc f) lines n h = elim (dec_lt n (length lines)) [
  | yes more ↦
      let (m, goes, ends, last, shows) = page_of limit size n lines more in
      subst next_pages (sym last) (
        ap (λ xs. xs ++ all_shown lines (read_on limit size f lines m)) shows
        ∙ ap (λ xs. between n m lines ++ xs)
            (read_on-rest limit size f lines m (omega (arith, h, goes)))
        ∙ between-rest n m lines (omega (arith, goes)))
  | no over ↦
      let past : length lines ≤ n = omega (arith, over) in
      subst next_pages (sym (no_page limit size n lines past)) (sym (drop-past n lines past))
]
  where
    next_pages : Option ℕ → Type 0
    next_pages o =
        all_shown lines (elim o [
          | none ↦ []
          | some m ↦
              journal_page limit size lines (some (suc n)) none ∷ read_on limit size f lines m
        ])
        ≡ drop n lines

-- An agent that asks for a transcript page after page, each from the line behind the last one of the
-- page before, is done after as many pages as there are lines, whatever the budget of a page and
-- however long a line: the pages' ranges are then all lines, each once and in order.
pub read_on-whole :
    (limit size : ℕ) (lines : List String)
    → all_shown lines (read_on limit size (suc (length lines)) lines 0) ≡ lines
read_on-whole limit size lines = read_on-rest limit size (suc (length lines)) lines 0 (omega arith)

whole_between : (n : ℕ) (lines : List String) → length lines ≤ n → between 0 n lines ≡ lines
whole_between n lines h = take_all (n - 0) lines (omega (arith, h))

journal_page-whole :
    (limit size : ℕ) (lines : List String) (first last : Option ℕ)
    → (journal_page limit size lines first last).truncated ≡ false
    → (journal_page limit size lines first last).text ≡ join "\n" lines
unfolding journal_page page_text
journal_page-whole limit size lines first last short =
    let s = stretch limit size lines first last in
    let page = join "\n" (between s.0 s.1 lines) in
    let starts : s.0 ≡ 0 = ground (arith, short) in
    let ends : length lines ≤ s.1 = ground (arith, short) in
    let all_lines : page ≡ join "\n" lines =
      ap (λ a. join "\n" (between a s.1 lines)) starts
      ∙ ap (join "\n") (whole_between s.1 lines ends) in
    ground (arith, short, all_lines)

-- However a page is asked for, it is no longer than the budget; and one that does not say that it
-- is truncated is the whole transcript.
pub journal_page_lem :
    (limit size : ℕ) (lines : List String) (first last : Option ℕ)
    → let p = journal_page limit size lines first last in
      (text_length p.text ≤ limit) × (p.truncated ≡ false → p.text ≡ join "\n" lines)
unfolding journal_page
journal_page_lem limit size lines first last =
    let s = stretch limit size lines first last in
    let page = join "\n" (between s.0 s.1 lines) in
    (
      page_text-le limit (is_some first || is_some last) page,
      λ short. journal_page-whole limit size lines first last short,
    )
