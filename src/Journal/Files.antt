-- ===== src/Journal/Files.antt =====
-- The names of the journal files of odoo_sheller/journal.py. A directory is the list of the names
-- in it, in the order in which `glob` finds them.
pub mod Names
use odoo_sheller.Common.{
  ℕ, code, String, Bool, true, false, ◌||◌, Option, none, some, List, [], ◌∷◌, if◌then◌else◌, ◌==◌,
  string_eq, nat_eq, is_alnum, text_append, concat, take_text,
}

-- `[A-Za-z0-9_.-]`
abbrev is_safe : ℕ → Bool
is_safe c = is_alnum c || c == b'_' || c == b'.' || c == b'-'

-- `_SAFE.sub("_", text)`: a run of other characters becomes one `_`.
unfoldable pub safe_text : (in_run : Bool) → String → String
safe_text in_run String.[] = ""
safe_text in_run (String.◌∷◌ c s) =
    let behind_safe = safe_text false s in
    let behind_run = safe_text true s in
    if is_safe (code c)
    then String.◌∷◌ c behind_safe
    else (if in_run then behind_run else text_append "_" behind_run)

unfoldable pub slug : String → String
slug text = take_text 40 (safe_text false text)

-- `_slug(database) if database else "nodb"`
unfoldable pub database_part : Option String → String
database_part none = "nodb"
database_part (some d) = if d == "" then "nodb" else slug d

-- The name of the file; `stamp` is what `strftime` makes of the time.
unfoldable pub journal_path : String → String → Option String → String → String
journal_path id container database stamp =
    concat (stamp ∷ "-" ∷ slug container ∷ "-" ∷ database_part database ∷ "-" ∷ id ∷ ".jsonl" ∷ [])

-- The text before the last `k`.
unfoldable pub before_last : ℕ → String → Option String
before_last k String.[] = none
before_last k (String.◌∷◌ c s) = elim (before_last k s) [
  | some t ↦ some (String.◌∷◌ c t)
  | none ↦ if code c == k then some "" else none
]

-- The text behind the last `k`.
unfoldable pub behind_last : ℕ → String → Option String
behind_last k String.[] = none
behind_last k (String.◌∷◌ c s) = elim (behind_last k s) [
  | some t ↦ some t
  | none ↦ if code c == k then some s else none
]

-- `path.stem`: the name without its last suffix, which a name that starts or ends with its last
-- dot does not have.
unfoldable pub stem : String → String
stem name = elim (before_last b'.' name) [
  | none ↦ name
  | some front ↦ if front == "" then name else (elim (behind_last b'.' name) [
    | none ↦ name
    | some suffix ↦ if suffix == "" then name else front
  ])
]

-- `path.stem.rsplit("-", 1)[-1]`
unfoldable pub session_id_of : String → String
session_id_of name = elim (behind_last b'-' (stem name)) [ none ↦ stem name | some id ↦ id ]

unfoldable pub find_journal : List String → String → Option String
find_journal [] id = none
find_journal (name ∷ names) id =
    let later = find_journal names id in if session_id_of name == id then some name else later
