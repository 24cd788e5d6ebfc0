-- ===== src/Mcp/Pages.antt =====
-- `_journal_page` of odoo_sheller/mcp.py: one stretch of a transcript. The lines are what
-- `str.splitlines` makes of the text, `size` is the text's length, and no line is asked for by a
-- negative number.
pub mod Stretch
pub mod Reading
use odoo_sheller.Common.{
  ℕ, zero, suc, ◌+◌, ◌-◌, String, Bool, ◌||◌, Option, none, some, List, [], ◌∷◌, ltb, leb,
  if◌then◌else◌, is_some, length, drop, join, skip, text_length, take_text,
}

abbrev pub take {ℓ} : {A : Type ℓ} → ℕ → List A → List A
take zero xs = []
take (suc n) [] = []
take (suc n) (x ∷ xs) = x ∷ take n xs

abbrev pub reversed {ℓ} : {A : Type ℓ} → List A → List A → List A
reversed [] out = out
reversed (x ∷ xs) out = reversed xs (x ∷ out)

abbrev pub least : ℕ → ℕ → ℕ
least a b = if leb a b then a else b

abbrev pub most : ℕ → ℕ → ℕ
most a b = if leb a b then b else a

-- How many lines a loop takes: it goes on as long as the next one and its line end fit.
unfoldable pub fitting : ℕ → ℕ → List String → ℕ
fitting limit size [] = 0
fitting limit size (l ∷ ls) =
    if leb (size + text_length l + 1) limit
    then suc (fitting limit (size + text_length l + 1) ls)
    else 0

abbrev pub told : Option ℕ → ℕ → ℕ
told none fallback = fallback
told (some zero) fallback = fallback
told (some (suc n)) fallback = suc n

-- `lines[start:stop]`
abbrev pub between : ℕ → ℕ → List String → List String
between start stop lines = take (stop - start) (drop start lines)

-- `start` and `stop` of a page that was not asked for by its lines, and of one that was
unfoldable pub default_stretch : ℕ → ℕ → List String → ℕ × ℕ
default_stretch limit size lines =
    let total = length lines in
    if leb size limit
    then (0, total)
    else (least (total - fitting limit 0 (reversed lines [])) (total - 1), total)

unfoldable pub asked_stretch : ℕ → List String → Option ℕ → Option ℕ → ℕ × ℕ
asked_stretch limit lines first last =
    let total = length lines in
    let start = told first 1 - 1 in
    let wanted = least (told last total) total in
    let stop = start + fitting limit 0 (between start wanted lines) in
    (start, most stop (least (start + 1) wanted))

unfoldable pub stretch : ℕ → ℕ → List String → Option ℕ → Option ℕ → ℕ × ℕ
stretch limit size lines none none = default_stretch limit size lines
stretch limit size lines first last = asked_stretch limit lines first last

pub record Page : Type 0 where
  pub total_lines : ℕ
  pub first : Option ℕ
  pub last : Option ℕ
  pub text : String
  pub truncated : Bool

-- The page's text, cut on the side that was not asked for.
unfoldable pub page_text : ℕ → Bool → String → String
page_text limit asked t =
    if ltb limit (text_length t)
    then (if asked then take_text limit t else skip (text_length t - limit) t)
    else t

unfoldable pub journal_page : ℕ → ℕ → List String → Option ℕ → Option ℕ → Page
journal_page limit size lines first last =
    let s = stretch limit size lines first last in
    let page = join "\n" (between s.0 s.1 lines) in
    let some_line = ltb s.0 s.1 in
    record {
      total_lines = length lines;
      first = if some_line then some (s.0 + 1) else none;
      last = if some_line then some s.1 else none;
      text = page_text limit (is_some first || is_some last) page;
      truncated = ltb limit (text_length page) || ltb 0 s.0 || ltb s.1 (length lines);
    }
