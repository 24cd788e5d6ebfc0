-- ===== src/Journal/Header.antt =====
-- The header of a transcript of odoo_sheller/journal.py.
use odoo_sheller.Common.{
  String, Bool, Option, none, some, List, [], ◌∷◌, ◌++◌, if◌then◌else◌, ◌==◌, string_eq, nat_eq,
  concat,
}
use odoo_sheller.Journal.{Opening, Meta}
use odoo_sheller.Journal.Markdown.{decimal}

abbrev pub or_else : Option String → String → String
or_else none other_wise = other_wise
or_else (some s) other_wise = if s == "" then other_wise else s

-- The rows of the header that have a value.
unfoldable pub header_row : String → Option String → List String
header_row label none = []
header_row label (some value) = concat ("| " ∷ label ∷ " | " ∷ value ∷ " |" ∷ []) ∷ []

unfoldable pub header_rows : List (String × Option String) → List String
header_rows [] = []
header_rows ((label, value) ∷ rest) = header_row label value ++ header_rows rest

abbrev ended_word : Option Bool → Option String
ended_word none = none
ended_word (some died) = some (if died then "session_died" else "session_close")

-- A field of the opening line.
abbrev from_opening : (Opening → Option String) → Option Opening → Option String
from_opening f none = none
from_opening f (some o) = f o

unfoldable pub markdown_header : Meta → List String
markdown_header m =
    let container = from_opening (λ o. o.container) m.opening in
    let database = from_opening (λ o. o.database) m.opening in
    concat (
        "# Session "
        ∷ or_else m.session_id "?"
        ∷ " — "
        ∷ or_else container "?"
        ∷ " / "
        ∷ or_else database "?"
        ∷ "\n"
        ∷ [])
      ∷ "| | |"
      ∷ "|---|---|"
      ∷ header_rows (
          ("Session", m.session_id)
          ∷ ("Container", container)
          ∷ ("Database", database)
          ∷ ("Odoo", from_opening (λ o. o.odoo) m.opening)
          ∷ ("Python", from_opening (λ o. o.python) m.opening)
          ∷ ("Opened", m.opened_at)
          ∷ ("Closed", m.closed_at)
          ∷ ("Ended as", ended_word m.ended_as)
          ∷ ("Commands", some (decimal m.commands))
          ∷ ("Committed", some (if m.committed then "yes" else "no"))
          ∷ [])
    ++ "\n> Unmasked transcript: it can contain credentials read from the database.\n" ∷ []
