-- ===== src/Journal/Listing.antt =====
-- The list of journals of odoo_sheller/journal.py with its cache, and the deletion of a journal.
-- The directory is a function from the names to the files.
mod Cached
pub mod Runs
use odoo_sheller.Common.{
  ℕ, suc, ◌+◌, String, not, ◌&&◌, Option, none, some, List, [], ◌∷◌, ◌++◌, if◌then◌else◌, ◌==◌,
  string_eq, nat_eq, is_some, length, keep, contains, lookup,
}
use odoo_sheller.Journal.{Opening, Line, one_or_none, Meta, session_meta}
use odoo_sheller.Journal.Files.{session_id_of, find_journal}

-- A line of a file: its bytes before the line's end, and what it says, if it is a journal record.
pub record Raw : Type 0 where
  pub bytes : ℕ
  pub says : Option Line

pub record JournalFile : Type 0 where
  pub mtime_ns : ℕ
  pub lines : List Raw

-- `Journal.iter_records`: a broken line is passed over.
unfoldable pub iter_records : List Raw → List Line
iter_records [] = []
iter_records (r ∷ rs) = one_or_none r.says ++ iter_records rs

-- `stat.st_size`
unfoldable pub size : List Raw → ℕ
size [] = 0
size (r ∷ rs) = suc r.bytes + size rs

-- A row of the list.
pub record Row : Type 0 where
  pub meta : Meta
  pub path : String
  pub container : String
  pub database : String
  pub odoo : String
  pub lines : ℕ
  pub bytes : ℕ

abbrev or_unknown : (Opening → Option String) → Option Opening → String
or_unknown f none = "?"
or_unknown f (some o) = elim (f o) [ none ↦ "?" | some s ↦ if s == "" then "?" else s ]

abbrev pub Directory : Type 0
Directory = String → Option JournalFile

-- What `_LISTING` holds of a file: its stamp and its row.
pub record Kept : Type 0 where
  pub mtime_ns : ℕ
  pub size : ℕ
  pub row : Row

abbrev pub Cache : Type 0
Cache = List (String × Kept)

-- The names that were found and not gone.
unfoldable pub seen : List String → Directory → List String
seen paths dir = keep (λ path. is_some (dir path)) paths

module _ (elapsed : String → String → Option ℕ) where
  -- `_summarise`
  unfoldable pub summary : String → ℕ → List Raw → Row
  summary path bytes raw =
      let read = iter_records raw in
      let m = session_meta elapsed (some (session_id_of path)) read in
      record {
        meta = m;
        path = path;
        container = or_unknown (λ o. o.container) m.opening;
        database = or_unknown (λ o. o.database) m.opening;
        odoo = or_unknown (λ o. o.odoo) m.opening;
        lines = length read;
        bytes = bytes;
      }

  -- One file of the list: what is cached, if the stamp is still the file's.
  unfoldable pub row_of : String → JournalFile → Cache → Row × Cache
  row_of path f c =
      let fresh = summary path (size f.lines) f.lines in
      let kept : Kept = record { mtime_ns = f.mtime_ns; size = size f.lines; row = fresh } in
      let read_again : Row × Cache = (fresh, (path, kept) ∷ c) in
      elim (lookup path c) [
        | none ↦ read_again
        | some k ↦
            if k.mtime_ns == f.mtime_ns && k.size == size f.lines then (k.row, c) else read_again
      ]

  -- The loop of `list_journals` over the names that `glob` found; a file that is gone is passed over.
  unfoldable pub list_loop : List String → Directory → Cache → List Row × Cache
  list_loop [] dir c = ([], c)
  list_loop (path ∷ paths) dir c = elim (dir path) [
    | none ↦ list_loop paths dir c
    | some f ↦
        let (row, d) = row_of path f c in let (rows, e) = list_loop paths dir d in (row ∷ rows, e)
  ]

  unfoldable pub list_journals : List String → Directory → Cache → List Row × Cache
  list_journals paths dir c =
      let (rows, d) = list_loop paths dir c in (rows, keep (λ k. contains (seen paths dir) k.0) d)

abbrev pub set_file : String → Option JournalFile → Directory → Directory
set_file path f dir = λ p. if p == path then f else dir p

-- `Journal.write`: the line is appended; a file that is not there is made.
unfoldable pub write : String → ℕ → Raw → Directory → Directory
write path now line dir = elim (dir path) [
  | none ↦ set_file path (some (record { mtime_ns = now; lines = line ∷ [] })) dir
  | some f ↦ set_file path (some (record { mtime_ns = now; lines = f.lines ++ line ∷ [] })) dir
]

-- `delete_journal`: the name that was unlinked, or `none` where it raises `FileNotFoundError`.
unfoldable pub delete_journal :
    List String → String → Directory → Cache → Option String × Directory × Cache
delete_journal paths id dir c = elim (find_journal paths id) [
  | none ↦ (none, dir, c)
  | some path ↦
      if is_some (dir path)
      then (some path, set_file path none dir, keep (λ k. not (k.0 == path)) c)
      else (none, dir, c)
]
