-- ===== src/Journal/Markdown.antt =====
-- `to_markdown` of odoo_sheller/journal.py. What the loop appends is a list of blocks, and
-- `written` is the text of a block, line by line.
use odoo_sheller.Common.{
  ℕ, zero, suc, ◌/◌, ◌%◌, String, Bool, true, false, Option, none, some, List, [], ◌∷◌, ◌++◌, ltb,
  if◌then◌else◌, ◌==◌, string_eq, nat_eq, lookup, drop, concat,
}
use odoo_sheller.Journal.{
  Actor, Opening, Answer, Command, Body, session_open, session_close, session_died, sent, result,
  timeout, boundary, interrupt, stderr, owner_changed, policy_changed, Line,
}
use odoo_sheller.Journal.Feed.{id_eq}

abbrev digits : List String
digits = "0" ∷ "1" ∷ "2" ∷ "3" ∷ "4" ∷ "5" ∷ "6" ∷ "7" ∷ "8" ∷ "9" ∷ []

abbrev digit : ℕ → String
digit n = elim (drop n digits) [ [] ↦ "" | d ∷ _ ↦ d ]

-- `str(n)`: a number below `10 ^ suc fuel`
abbrev decimal_in : ℕ → ℕ → String
decimal_in zero n = digit (n % 10)
decimal_in (suc fuel) n =
    let front = decimal_in fuel (n / 10) in
    if ltb n 10 then digit n else concat (front ∷ digit (n % 10) ∷ [])

abbrev pub decimal : ℕ → String
decimal n = decimal_in n n

-- `f"{value}"` of a text or a number that may be missing
abbrev pub shown : Option String → String
shown none = "None"
shown (some s) = s

abbrev pub shown_number : Option ℕ → String
shown_number none = "None"
shown_number (some n) = decimal n

abbrev first_of : Option String → String → String
first_of none other_wise = other_wise
first_of (some s) other_wise = if s == "" then other_wise else s

-- `_named`
unfoldable pub named : Actor → String
named a = first_of a.label (first_of a.kind "unknown")

-- One `lines.append`, or the few of one line of the journal.
pub data Block : Type 0 where
  opening : Opening → Option String → Block
  heading : ℕ → Command → Option Actor → Option String → Block
  -- the number of the command if it is known, or its id
  late : Option ℕ → Option String → Block
  answer : Answer → Block
  transaction : (commits : Bool) → Option String → Block
  interrupted : Option String → Block
  moved : Option Actor → Option Actor → ℕ → Option String → Block
  right : Bool → Option String → Block
  exceeded : Option ℕ → Option String → Option String → Block
  log : List String → Block
  final : (died : Bool) → Option String → Block

-- The locals of `to_markdown`.
pub record Transcript : Type 0 where
  pub blocks : List Block
  pub ordinals : List (Option ℕ × ℕ)
  pub next_ordinal : ℕ
  pub pending_log : Option (List String)

abbrev pub no_transcript : Transcript
no_transcript = record { blocks = []; ordinals = []; next_ordinal = 0; pending_log = none }

-- An empty list of lines is not written.
unfoldable pub log_block : Option (List String) → List Block
log_block none = []
log_block (some []) = []
log_block (some (line ∷ lines)) = log (line ∷ lines) ∷ []

unfoldable pub flush_log : Transcript → Transcript
flush_log t = record t { blocks = t.blocks ++ log_block t.pending_log; pending_log = none }

abbrev pub say : Block → Transcript → Transcript
say b t = record t { blocks = t.blocks ++ b ∷ [] }

-- `ordinals.get(id, id)`
abbrev pub number_of : Option ℕ → Transcript → Option ℕ
number_of id t = elim (lookup id t.ordinals) [ none ↦ id | some n ↦ some n ]

abbrev pub holds_true : Option Bool → Bool
holds_true none = false
holds_true (some b) = b

-- One turn of the loop behind `flush_log`; `meta` is whether a header was given.
unfoldable pub tell : Bool → Option String → Body → Transcript → Transcript
tell meta ts (session_open o) t = if meta then t else say (opening o ts) t
tell meta ts (sent id c by) t = record {
  blocks = t.blocks ++ heading (suc t.next_ordinal) c by ts ∷ [];
  ordinals = (id, suc t.next_ordinal) ∷ t.ordinals;
  next_ordinal = suc t.next_ordinal;
  pending_log = t.pending_log;
}
tell meta ts (result abandoned id a) t =
    say (answer a) (if abandoned then say (late (number_of id t) ts) t else t)
tell meta ts (boundary commits failed by) t = say (transaction commits ts) t
tell meta ts interrupt t = say (interrupted ts) t
tell meta ts (owner_changed was now pending) t = say (moved was now pending ts) t
tell meta ts (policy_changed p) t = say (right (holds_true p) ts) t
tell meta ts (timeout id seconds) t = say (exceeded (number_of id t) seconds ts) t
tell meta ts session_close t = say (final false ts) t
tell meta ts session_died t = say (final true ts) t
tell meta ts _ t = t

abbrev pub held : Option (List String) → List String
held none = []
held (some lines) = lines

unfoldable pub log_line : Body → Option String
log_line (stderr line) = some line
log_line _ = none

-- One turn of the loop: a line of the log waits, everything else is told behind the waiting ones.
unfoldable pub transcribe : Bool → Option String → Body → Transcript → Transcript
transcribe meta ts b t = elim (log_line b) [
  | some line ↦ record t { pending_log = some (held t.pending_log ++ line ∷ []) }
  | none ↦ tell meta ts b (flush_log t)
]

unfoldable pub transcript_loop : Bool → List Line → Transcript → Transcript
transcript_loop meta [] t = t
transcript_loop meta (l ∷ ls) t = transcript_loop meta ls (transcribe meta l.ts l.body t)

unfoldable pub transcript_blocks : Bool → List Line → List Block
transcript_blocks meta ls = (flush_log (transcript_loop meta ls no_transcript)).blocks
