-- ===== src/Journal/Text.antt =====
-- The text of a transcript of odoo_sheller/journal.py. `rstrip` is Python's `str.rstrip`.
use odoo_sheller.Common.{
  ℕ, code, String, true, false, Option, none, some, List, [], ◌∷◌, ◌++◌, if◌then◌else◌, ◌==◌,
  string_eq, nat_eq, concat, join,
}
use odoo_sheller.Journal.{
  Actor, Problem, raised, plain, Tests, Hoot, Answer, Command, exec, run_test, Line, Meta,
}
use odoo_sheller.Journal.Markdown.{
  decimal, shown, shown_number, named, Block, opening, heading, late, answer, transaction,
  interrupted, moved, right, exceeded, log, final, transcript_blocks,
}
use odoo_sheller.Protocol.{spec_of}
use odoo_sheller.Journal.Header.{or_else, markdown_header}

abbrev or_empty : Option String → String
or_empty none = ""
or_empty (some s) = s

-- `record.get("ts", "")`
unfoldable pub stamped : Option String → String
stamped none = ""
stamped (some ts) = ts

-- ` by …`, or nothing where no actor is told
unfoldable pub by_whom : Option Actor → String
by_whom none = ""
by_whom (some a) = concat (" by " ∷ shown a.kind ∷ " (" ∷ named a ∷ ")" ∷ [])

-- An actor that is not told is `{}`.
unfoldable pub party : Option Actor → String
party none = "None (unknown)"
party (some a) = concat (shown a.kind ∷ " (" ∷ named a ∷ ")" ∷ [])

module _ (rstrip : String → String) where
  abbrev fenced : String → String
  fenced body = concat ("```\n" ∷ body ∷ "\n```\n" ∷ [])

  unfoldable pub heading_lines : ℕ → Command → Option Actor → Option String → List String
  heading_lines n (exec code) by ts =
      concat ("## Command " ∷ decimal n ∷ by_whom by ∷ " — " ∷ stamped ts ∷ "\n" ∷ [])
      ∷ concat ("```python\n" ∷ rstrip code ∷ "\n```\n" ∷ [])
      ∷ []
  heading_lines n (run_test s) by ts =
      concat (
        "## Test "
        ∷ decimal n
        ∷ by_whom by
        ∷ " — `"
        ∷ spec_of (or_empty s.module_name) s.test_class s.test_method s.params
        ∷ "` — "
        ∷ stamped ts
        ∷ "\n"
        ∷ [])
      ∷ []

  unfoldable pub stdout_lines : Option String → List String
  stdout_lines none = []
  stdout_lines (some text) = fenced (rstrip text) ∷ []

  unfoldable pub value_lines : Option String → List String
  value_lines none = []
  value_lines (some text) = concat ("Result: `" ∷ text ∷ "`\n" ∷ []) ∷ []

  unfoldable pub tests_lines : Option Tests → List String
  tests_lines none = []
  tests_lines (some t) =
      concat (
        "Tests: "
        ∷ shown_number t.tests_run
        ∷ " run, "
        ∷ shown_number t.failures
        ∷ " failed, "
        ∷ shown_number t.errors
        ∷ " errors, "
        ∷ shown_number t.skipped
        ∷ " skipped — "
        ∷ (if t.success then "PASS" else "FAIL")
        ∷ "\n"
        ∷ [])
      ∷ []

  unfoldable pub named_lines : String → List String → List String
  named_lines what [] = []
  named_lines what (name ∷ names) =
      concat ("- " ∷ what ∷ ": `" ∷ name ∷ "`\n" ∷ []) ∷ named_lines what names

  unfoldable pub hoot_lines : Option Hoot → List String
  hoot_lines none = []
  hoot_lines (some h) =
      concat (
          "Hoot: " ∷ shown_number h.passed ∷ " passed, " ∷ shown_number h.failed ∷ " failed\n" ∷ [])
        ∷ named_lines "failed" h.failed_tests
      ++ named_lines "filter Hoot has nothing for" h.unknown_filters

  -- The traceback, or the message where there is none.
  unfoldable pub raised_lines : Option String → Option String → Option String → List String
  raised_lines kind message traceback =
      let trace = rstrip (or_empty traceback) in
      if trace == ""
      then concat ("**" ∷ or_else kind "Error" ∷ "**: " ∷ or_empty message ∷ "\n" ∷ []) ∷ []
      else fenced trace ∷ []

  unfoldable pub problem_lines : Option Problem → List String
  problem_lines none = []
  problem_lines (some (raised kind message traceback)) = raised_lines kind message traceback
  problem_lines (some (plain text)) = raised_lines none (some text) none

  unfoldable pub answer_lines : Answer → List String
  answer_lines a =
      stdout_lines a.stdout
      ++ value_lines a.value
      ++ tests_lines a.tests
      ++ hoot_lines a.hoot
      ++ problem_lines a.error
      ++ concat ("_" ∷ a.duration ∷ "s_\n" ∷ []) ∷ []

  unfoldable pub written : Block → List String
  written (opening o ts) =
      concat ("# Session on " ∷ shown o.container ∷ " / " ∷ shown o.database ∷ [])
      ∷ concat ("Odoo " ∷ shown o.odoo ∷ " — opened " ∷ stamped ts ∷ "\n" ∷ [])
      ∷ []
  written (heading n c by ts) = heading_lines n c by ts
  written (late n ts) =
      concat (
        "**Late result of command "
        ∷ shown_number n
        ∷ "**, abandoned at timeout — "
        ∷ stamped ts
        ∷ "\n"
        ∷ [])
      ∷ []
  written (answer a) = answer_lines a
  written (transaction commits ts) =
      concat (
        "**Transaction "
        ∷ (if commits then "commit" else "rollback")
        ∷ "** — "
        ∷ stamped ts
        ∷ "\n"
        ∷ [])
      ∷ []
  written (interrupted ts) = concat ("**Interrupted** — " ∷ stamped ts ∷ "\n" ∷ []) ∷ []
  written (moved was now pending ts) =
      concat (
        "**Ownership moved** from "
        ∷ party was
        ∷ " to "
        ∷ party now
        ∷ ", "
        ∷ decimal pending
        ∷ " command(s) pending — "
        ∷ stamped ts
        ∷ "\n"
        ∷ [])
      ∷ []
  written (right granted ts) =
      concat (
        "**Commit right "
        ∷ (if granted then "granted" else "revoked")
        ∷ "** — "
        ∷ stamped ts
        ∷ "\n"
        ∷ [])
      ∷ []
  written (exceeded n seconds ts) =
      concat (
        "**Command "
        ∷ shown_number n
        ∷ " exceeded "
        ∷ shown seconds
        ∷ "s and was interrupted** — "
        ∷ stamped ts
        ∷ "\n"
        ∷ [])
      ∷ []
  written (log lines) = "Odoo log:\n" ∷ fenced (rstrip (join "\n" lines)) ∷ []
  written (final died ts) =
      concat (
        "**"
        ∷ (if died then "Session Died" else "Session Close")
        ∷ "** — "
        ∷ stamped ts
        ∷ "\n"
        ∷ [])
      ∷ []

  unfoldable pub written_all : List Block → List String
  written_all [] = []
  written_all (b ∷ bs) = written b ++ written_all bs

  unfoldable pub to_markdown : List Line → Option Meta → String
  to_markdown ls none = join "\n" (written_all (transcript_blocks false ls))
  to_markdown ls (some m) = join "\n" (markdown_header m ++ written_all (transcript_blocks true ls))
