-- ===== src/Tests/Agents.antt =====
-- Calls of an agent's tools on which the theorems are applied.
use odoo_sheller.Session.Rights.{KeyStatus, init, key_status}
use odoo_sheller.Api.{presented_status}
use odoo_sheller.Protocol.{spec_of}
use odoo_sheller.Tests.Sessions.{local_container}
use odoo_sheller.Mcp.Tools.Held.{IsSound}
use odoo_sheller.Common.{
  ℕ, suc, ◌+◌, ◌≤◌, ◌<◌, String, ◌≡◌, refl, inl, true, false, Option, none, some, List, [], ◌∷◌,
  arith, ltb, if◌then◌else◌, string_eq, nat_eq, length, lookup, join, text_length,
}
use odoo_sheller.Mcp.{Reply, got, Sent, Server}
use odoo_sheller.Mcp.Pages.{fitting, asked_stretch, stretch, page_text, journal_page}
use odoo_sheller.Mcp.Pages.Reading.{read_on, all_shown, read_on-whole, journal_page_lem}
use odoo_sheller.Mcp.Tools.{
  Described, Opened, os_attach_session, boundary_result, inherited_of, os_commit,
}
use odoo_sheller.Mcp.Tools.Keys.{
  Use, listing, opening, attaching, command, committing, closing, running, describing, reading,
  use_tools, use_tools-IsSound,
}
use odoo_sheller.Mcp.Tools.Taking.{os_attach_session-held, os_commit_lem}
use odoo_sheller.Mcp.Results.{
  max_stdout, max_result, Frame, lines_of, exec_answer, RunFrame, failures_of, run_answer,
}
use odoo_sheller.Mcp.Results.Whole.{Within, log_of, exec_answer_lem, history_run-run_answer}
use odoo_sheller.Mcp.Runs.{default_call_budget, RunArgs, Surroundings, os_test_result}
use odoo_sheller.Mcp.Runs.Waiting.{Runs, Returned, os_test_result-Returned}
use odoo_sheller.Mcp.Results.Past.{PastRun, ran, filled, history_run}

abbrev small_lines : List String
small_lines = "ab" ∷ "a line that is too long" ∷ "c" ∷ "d" ∷ []

read_on-whole_example :
    all_shown small_lines (read_on 6 40 (suc (length small_lines)) small_lines 0) ≡ small_lines
read_on-whole_example = read_on-whole 6 40 small_lines

-- The second page is cut, and says so.
second_page : (journal_page 6 40 small_lines (some 2) none).text ≡ "a line"
unfolding journal_page stretch asked_stretch fitting page_text
second_page = refl

journal_page_lem_example :
    let p = journal_page 6 40 small_lines none none in
    (text_length p.text ≤ 6) × (p.truncated ≡ false → p.text ≡ join "\n" small_lines)
journal_page_lem_example = journal_page_lem 6 40 small_lines none none

abbrev no_text : ℕ → Option String
no_text major = none

abbrev unused : Server
unused = record { held = []; rules_given = []; sent = [] }

abbrev small_opened : Opened
small_opened = record { id = "s1"; write_key = "k1"; version = some "17.0" }

abbrev small_described : Described
small_described = record {
  key_status = some KeyStatus.owner;
  inherited_pending = 2;
  odoo = some "17.0";
}

abbrev small_frame : Frame
small_frame = record {
  stdout = some "";
  result = some "42";
  error = none;
  stderr = some ("one" ∷ "two" ∷ []);
  stderr_truncated = false;
  stdout_truncated = false;
  duration = some 3;
}

abbrev small_run : RunFrame
small_run = record {
  frame = small_frame;
  test = some (record { tests_run = 3; failures = 0; errors = 0; skipped = 1; success = true });
  failed = some [];
  discarded_pending = some false;
  hoot = none;
}

abbrev small_args : RunArgs
small_args = record {
  test = "sale.TestSale";
  container = some "mig18";
  database = none;
  odoo_bin = none;
  timeout = none;
  session_id = none;
  params = none;
}

abbrev small_uses : List Use
small_uses =
    opening no_text (got small_opened)
    ∷ attaching no_text "s2" "k2" (got small_described)
    ∷ command "POST" "/exec" (some "s1") (got none)
    ∷ committing (some "s2") false (got small_described) (got none)
    ∷ closing (some "s1") (Reply.refused "request_timed_out")
    ∷ listing (got ("s2" ∷ []))
    ∷ running small_args (got small_opened) (got small_run)
    ∷ describing "s1"
    ∷ reading "GET" "/api/sessions/s2/history"
    ∷ []

abbrev GivenKeys : String → String → Type 0
GivenKeys id key = lookup id (("s1", "k1") ∷ ("s2", "k2") ∷ []) ≡ some key

use_tools-IsSound_example : IsSound GivenKeys (use_tools small_uses unused)
use_tools-IsSound_example =
    use_tools-IsSound GivenKeys small_uses unused
      (refl, (refl, (tt, (tt, (tt, (tt, (refl, (tt, (tt, tt)))))))))
      (record { holds = tt; sends = tt })

os_attach_session-held_example :
    lookup "s1" (os_attach_session no_text "s1" "k1" (got small_described) unused).0.held
    ≡ some "k1"
unfolding presented_status key_status init
os_attach_session-held_example =
    os_attach_session-held no_text "s1" "k1" small_described
      (init local_container none none false "k1") unused refl refl refl "s1"

os_commit_lem_example :
    let t = os_commit (some "s1") false (got small_described) (got none) unused in
    let asks : Sent = record {
      method = "GET";
      path = "/api/sessions/s1";
      session = some "s1";
      key = none;
    } in
    let commits : Sent = record {
      method = "POST";
      path = "/api/sessions/s1/commit";
      session = some "s1";
      key = none;
    } in
    (0 < 2 → (t.0.sent ≡ asks ∷ []) × (t.1 ≡ inl "inherited_pending"))
    × (inherited_of (got small_described) ≡ 0
        → (t.0.sent ≡ asks ∷ commits ∷ []) × (t.1 ≡ boundary_result (got none)))
    × (t.0.held ≡ [])
os_commit_lem_example = os_commit_lem "s1" (got small_described) (got none) unused refl

exec_answer_lem_example :
    let a = exec_answer true small_frame in
    Within max_stdout a.stdout
    × Within max_result a.result
    × Within max_stdout (log_of a.stderr)
    × (a.journal ≡ false
        → (a.stdout ≡ small_frame.stdout)
          × (a.result ≡ small_frame.result)
          × (a.stderr ≡ some (join "\n" (lines_of small_frame.stderr), false)))
exec_answer_lem_example = exec_answer_lem true small_frame

abbrev small_past : PastRun
small_past = record {
  ordinal = 4;
  module_name = "sale";
  test_class = some "TestSale";
  test_method = none;
  params = some "@sale";
  status = "ok";
  result = some small_run;
  abandoned = false;
}

history_run-run_answer_example :
    let now = run_answer "sale.TestSale" (some "@sale") small_run in
    let later = history_run small_past in
    (later.test ≡ now.test)
    × (later.counts ≡ now.counts)
    × (failures_of later.failed ≡ now.failed)
    × (later.stdout ≡ filled now.stdout)
    × (later.stderr ≡ filled now.stderr)
    × (later.stderr_lines ≡ now.stderr_lines)
    × (later.error ≡ now.error)
    × (later.hoot ≡ now.hoot)
    × (later.truncated ≡ now.truncated)
unfolding spec_of
history_run-run_answer_example =
    history_run-run_answer "sale.TestSale" small_past small_run refl refl refl

-- A daemon whose answer takes a moment; the run ends after five seconds.
abbrev small_daemon : Surroundings ℕ
small_daemon = record {
  history = λ d. (
    d + 1,
    got (record {
      entries =
          ran (record small_past { result = if ltb d 5000 then none else some small_run }) ∷ [];
      gone = false;
    }),
  );
  sleep = λ d. d + 2000;
  time = λ d. d;
}

small_daemon-Runs : Runs small_daemon
small_daemon-Runs = record { history_later = λ d. omega arith; sleep_later = λ d. omega arith }

os_test_result-Returned_example :
    Returned small_daemon 0 (os_test_result small_daemon default_call_budget 21 0)
os_test_result-Returned_example =
    os_test_result-Returned small_daemon default_call_budget 20 0 small_daemon-Runs (omega arith)
