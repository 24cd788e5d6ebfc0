-- ===== src/TestLog/Result.antt =====
-- `_run_result` of odoo_sheller/session.py: the bootstrap's answer to a run, with what the session
-- read of it.
pub mod Honest
pub mod Told
use odoo_sheller.Common.{
  String, Bool, false, not, ◌&&◌, ◌||◌, Option, none, some, List, if◌then◌else◌, ◌==◌, string_eq,
  nat_eq, is_some,
}
use odoo_sheller.TestLog.{error, failed, Python, Hoot, Failure, Reading}
use odoo_sheller.TestLog.Reader.{end_hoot_reason}
use odoo_sheller.Protocol.{spec_of}

-- `browser`: a browser suite was asked for.
unfoldable pub is_browser : String → Option String → Option String → Option String → Bool
is_browser module_name test_class test_method params =
    (elim params [ none ↦ false | some p ↦ not (p == "") ])
    || spec_of module_name test_class test_method none == "web.WebSuite.test_unit_desktop"

-- What of the bootstrap's frame is changed: whether the run was a success, if it counted tests, and
-- the error.
pub record Frame : Type 0 where
  pub success : Option Bool
  pub error : Option String

pub record RunResult : Type 0 where
  pub success : Option Bool
  pub error : Option String
  pub failed : List Failure
  pub hoot : Option Hoot
  -- the `reason` of a suite that was skipped
  pub skipped : Option String

-- The reason that counts: that of a browser suite.
unfoldable pub skip_of : Bool → Option (Option String × Option String) → Option String
skip_of browser none = none
skip_of browser (some (params, none)) = none
skip_of browser (some (params, some reason)) =
    if browser && not (reason == "") then some reason else none

module _ (py : Python) where
  unfoldable pub result_of_run : Bool → Frame → Reading → RunResult
  result_of_run browser f s =
      let t : Reading = if is_some s.hoot then end_hoot_reason py s else s in
      let reason = skip_of browser s.run in
      elim reason [
        | none ↦ record {
          success = f.success;
          error = f.error;
          failed = s.failures;
          hoot = t.hoot;
          skipped = none;
        }
        | some r ↦ record {
          success = elim f.success [ none ↦ none | some b ↦ some false ];
          error = elim f.error [
            | none ↦ some "js_tests_skipped"
            | some e ↦ some (if e == "" then "js_tests_skipped" else e)
          ];
          failed = s.failures;
          hoot = t.hoot;
          skipped = some r;
        }
      ]
