-- ===== src/Tests/Logs.antt =====
-- The log of a test run on which the theorems are applied.
use odoo_sheller.TestLog.Result.Told.{result_of_run-skipped}
use odoo_sheller.Common.{
  ℕ, ◌≤◌, ◌<◌, String, ◌≡◌, refl, ◌≢◌, ◌↔◌, inl, true, false, not, Option, none, some, List, [],
  ◌∷◌, arith, if◌then◌else◌, is_some, starts_with, skip, text_length,
}
use odoo_sheller.TestLog.{test_skip, Python, parse_test_line}
use odoo_sheller.TestLog.Reader.{read_all}
use odoo_sheller.TestLog.Filters.{start_run}
use odoo_sheller.TestLog.Bounded.{IsBounded}
use odoo_sheller.TestLog.Bounded.Heard.{read_log-IsBounded}
use odoo_sheller.JsTests.{looked, capability}
use odoo_sheller.JsTests.Closed.{IsReason, capability_lem}
use odoo_sheller.TestLog.Result.{Frame, result_of_run}

abbrev after : String → String → Option String
after word line = if starts_with line word then some (skip (text_length word) line) else none

-- Lines that begin with a word for their pattern.
abbrev small_re : Python
small_re = record {
  test_match = λ p line. elim p [ test_skip ↦ after "skipped " line | _ ↦ none ];
  running_match = after "run ";
  failed_match = after "failed ";
  dropped_match = after "dropped ";
  passed_all_match = λ line. none;
  failed_some_match = λ line. none;
  is_log_record = λ line. not (starts_with line " ");
  subtest_match = λ s. none;
  class_fixture_match = λ s. none;
  is_module_fixture = λ s. false;
  is_class_method = λ s. false;
  strip = λ s. s;
  rstrip = λ s. s;
}

abbrev small_log : List String
small_log =
    "run @sale/a" ∷ "failed @sale/a" ∷ "  expected 1" ∷ "  got 2" ∷ "failed @sale/a"
    ∷ "dropped 00000000" ∷ []

rstrip_shorter : (t : String) → text_length (small_re.rstrip t) ≤ text_length t
rstrip_shorter t = omega arith

read_log-IsBounded_example :
    IsBounded (read_all small_re small_log (start_run small_re "sale" (some "@sale/a") true))
read_log-IsBounded_example =
    read_log-IsBounded small_re rstrip_shorter "sale" (some "@sale/a") true small_log

abbrev skip_line : String
skip_line = "skipped web : Chrome executable not found"

-- Odoo counted a pass, and says in the log that the browser was missing.
abbrev passed : Frame
passed = record { success = some true; error = none }

result_of_run-skipped_example :
    let s =
      read_all small_re
        ("run @sale/a" ∷ skip_line ∷ "dropped 00000000" ∷ [])
        (start_run small_re "web" none true) in
    let asked = result_of_run small_re true passed s in
    let other = result_of_run small_re false passed s in
    (is_some asked.skipped ≡ true)
    × IsReason asked.skipped
    × (is_some asked.error ≡ true)
    × (asked.success ≢ some true)
    × (other.success ≡ some true)
    × (other.error ≡ none)
    × (other.skipped ≡ none)
unfolding parse_test_line
result_of_run-skipped_example =
    result_of_run-skipped small_re passed "web" none true ("run @sale/a" ∷ [])
      ("dropped 00000000" ∷ []) skip_line "web : Chrome executable not found" refl (inl refl)

capability_lem_example :
    ((capability (some 18) (looked false (some true) true)).available ≡ true ↔ (
      ((n : ℕ) × (some 18 ≡ some n) × (18 ≤ n) × (n < 21))
      × (looked false (some true) true ≡ looked false (some true) true)))
    × (is_some (capability (some 18) (looked false (some true) true)).reason
        ≡ not (capability (some 18) (looked false (some true) true)).available)
    × IsReason (capability (some 18) (looked false (some true) true)).reason
    × ((capability (some 18) (looked false (some true) true)).available ≡ true
        → is_some (capability (some 18) (looked false (some true) true)).tested ≡ true)
capability_lem_example = capability_lem (some 18) (looked false (some true) true)
