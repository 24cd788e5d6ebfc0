-- ===== src/TestLog.antt =====
-- What odoo_sheller/session.py reads in the log of a test run. The patterns are those of `_TEST_LINES`
-- and `_HOOT_LINES`, in their order; what `re` finds of each in a line is a parameter.
pub mod Hash
pub mod Reader
pub mod Filters
pub mod Result
pub mod Bounded
use odoo_sheller.Common.{ℕ, String, Bool, Option, none, some, List, [], ◌∷◌, if◌then◌else◌, concat}

-- The patterns of `_TEST_LINES`.
pub data TestPattern : Type 0 where
  test_start test_fail test_error test_skip : TestPattern
  suite_fail suite_error suite_skip : TestPattern

pub data TestKind : Type 0 where
  start failure error skip : TestKind

abbrev test_lines : List (TestKind × TestPattern)
test_lines =
    (start, test_start)
    ∷ (failure, test_fail)
    ∷ (error, test_error)
    ∷ (skip, test_skip)
    ∷ (failure, suite_fail)
    ∷ (error, suite_error)
    ∷ (skip, suite_skip)
    ∷ []

pub data HootLine : Type 0 where
  running failed : String → HootLine
  -- how many passed, and how many failed
  counts : ℕ → ℕ → HootLine
  dropped : String → HootLine

-- What `re` and `str` answer.
pub record Python : Type 0 where
  -- `group(1)` of a pattern of `_TEST_LINES`
  pub test_match : TestPattern → String → Option String
  -- the name in the patterns `running`, `failed` and `dropped` of `_HOOT_LINES`
  pub running_match : String → Option String
  pub failed_match : String → Option String
  pub dropped_match : String → Option String
  -- the numbers in `passed_all` and `failed_some`
  pub passed_all_match : String → Option ℕ
  pub failed_some_match : String → Option (ℕ × ℕ)
  -- `_LOG_RECORD.match(line)`
  pub is_log_record : String → Bool
  -- `group(1)` of `_SUBTEST` and of `_CLASS_FIXTURE`, at the start of a text
  pub subtest_match : String → Option String
  pub class_fixture_match : String → Option String
  pub is_module_fixture : String → Bool
  -- `re.fullmatch(r"\w+\.\w+", text)`
  pub is_class_method : String → Bool
  pub strip : String → String
  pub rstrip : String → String

first_test_match : Python → String → List (TestKind × TestPattern) → Option (TestKind × String)
first_test_match py line [] = none
first_test_match py line ((kind, pattern) ∷ rest) =
    let later = first_test_match py line rest in
    elim (py.test_match pattern line) [ some description ↦ some (kind, description) | none ↦ later ]

unfoldable pub parse_test_line : Python → String → Option (TestKind × String)
unfolding first_test_match
parse_test_line py line = first_test_match py line test_lines

-- The first pattern that fits, in the order of `_HOOT_LINES`.
unfoldable pub parse_hoot_line : Python → String → Option HootLine
parse_hoot_line py line = elim (py.running_match line) [
  | some name ↦ some (running name)
  | none ↦ elim (py.failed_match line) [
    | some name ↦ some (failed name)
    | none ↦ elim (py.passed_all_match line) [
      | some n ↦ some (counts n 0)
      | none ↦ elim (py.failed_some_match line) [
        | some (n, m) ↦ some (counts m n)
        | none ↦ elim (py.dropped_match line) [ some id ↦ some (dropped id) | none ↦ none ]
      ]
    ]
  ]
]

-- `rerun_spec`
unfoldable pub rerun_spec : Python → String → String → String
rerun_spec py module_name description = elim (py.subtest_match description) [
  | some method ↦ concat (module_name ∷ "." ∷ method ∷ [])
  | none ↦ elim (py.class_fixture_match description) [
    | some name ↦ concat (module_name ∷ "." ∷ name ∷ [])
    | none ↦
        if py.is_module_fixture description
        then module_name
        else if py.is_class_method description
        then concat (module_name ∷ "." ∷ description ∷ [])
        else description
  ]
]

abbrev pub hoot_reason_chars : ℕ
hoot_reason_chars = 800

abbrev pub hoot_reasons : ℕ
hoot_reasons = 10

-- `_hoot`; `unknown_filters` is there once a filter was dropped
pub record Hoot : Type 0 where
  pub passed : Option ℕ
  pub failed : Option ℕ
  pub failed_tests : List String
  pub reasons : List (String × String)
  pub unknown_filters : List String

abbrev pub no_hoot : Hoot
no_hoot = record {
  passed = none;
  failed = none;
  failed_tests = [];
  reasons = [];
  unknown_filters = [];
}

-- A failed test, as `_test_failed` has it.
pub record Failure : Type 0 where
  pub test : String
  pub is_error : Bool
  pub params : Option String

-- `_test_progress`, the fields that a line changes
pub record Progress : Type 0 where
  pub current : Option String
  pub started : ℕ
  pub failures : ℕ
  pub errors : ℕ
  pub skipped : ℕ

-- The fields of `Session` that the reading of a run's log uses.
pub record Reading : Type 0 where
  pub test_module : Option String
  pub failures : List Failure
  pub progress : Option Progress
  pub hoot : Option Hoot
  -- `_hoot_reason_for` and `_hoot_reason`
  pub reason_for : Option String
  pub reason : List String
  -- `_hoot_filters`: what was asked for, by Hoot's id
  pub filters : List (String × String)
  pub stopping : Bool
  -- `_run`: its params, and the reason of a skip
  pub run : Option (Option String × Option String)
  pub has_pid : Bool
  -- the interrupts journalled and sent, each with the filter that caused it
  pub interrupts : List String
  -- what `_emit_test_progress` announced
  pub emitted : List Progress
