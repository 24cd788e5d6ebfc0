-- ===== src/Mcp/Results/Past.antt =====
-- The entries of a history as odoo_sheller/mcp.py answers with them.
use odoo_sheller.TestLog.{Hoot, Failure}
use odoo_sheller.Protocol.{spec_of}
use odoo_sheller.Mcp.{clip}
use odoo_sheller.Common.{
  ℕ, String, Bool, false, ◌||◌, Option, none, some, List, if◌then◌else◌, ◌==◌, string_eq, nat_eq,
}
use odoo_sheller.Mcp.Results.{max_stdout, max_result, Frame, Counts, RunFrame, test_log}

-- An entry of a feed; `result` is missing while the command runs.
pub record PastRun : Type 0 where
  pub ordinal : ℕ
  pub module_name : String
  pub test_class : Option String
  pub test_method : Option String
  pub params : Option String
  pub status : String
  pub result : Option RunFrame
  pub abandoned : Bool

pub record PastExec : Type 0 where
  pub ordinal : ℕ
  pub source : String
  pub status : String
  pub result : Option Frame
  pub abandoned : Bool

pub data Entry : Type 0 where
  ran : PastRun → Entry
  executed : PastExec → Entry
  other : String → Entry

-- `text or None`
abbrev pub filled : Option String → Option String
filled none = none
filled (some s) = if s == "" then none else some s

abbrev pub empty_frame : Frame
empty_frame = record {
  stdout = none;
  result = none;
  error = none;
  stderr = none;
  stderr_truncated = false;
  stdout_truncated = false;
  duration = none;
}

abbrev pub empty_run : RunFrame
empty_run = record {
  frame = empty_frame;
  test = none;
  failed = none;
  discarded_pending = none;
  hoot = none;
}

abbrev pub or_empty : Option RunFrame → RunFrame
or_empty none = empty_run
or_empty (some r) = r

pub record HistoryRun : Type 0 where
  pub n : ℕ
  pub test : String
  pub status : String
  pub counts : Option Counts
  pub failed : Option (List Failure)
  pub stdout : Option String
  pub stderr : Option String
  pub stderr_lines : Option ℕ
  pub error : Option String
  pub hoot : Option Hoot
  pub truncated : Bool
  pub abandoned : Bool

-- `_history_run_test_entry`; what it rounds, the actor and `stderr_truncated` are left out.
unfoldable pub history_run : PastRun → HistoryRun
unfolding clip test_log
history_run e =
    let r = or_empty e.result in
    let out = clip max_stdout r.frame.stdout in
    let log = test_log (spec_of e.module_name e.test_class e.test_method none) r.frame.stderr in
    record {
      n = e.ordinal;
      test = spec_of e.module_name e.test_class e.test_method e.params;
      status = e.status;
      counts = r.test;
      failed = r.failed;
      stdout = filled out.0;
      stderr = filled log.0;
      stderr_lines = log.1;
      error = r.frame.error;
      hoot = r.hoot;
      truncated = out.1 || log.2;
      abandoned = e.abandoned;
    }

pub record HistoryExec : Type 0 where
  pub n : ℕ
  pub source : Option String
  pub status : String
  pub stdout : Option String
  pub result : Option String
  pub error : Option String
  pub truncated : Bool
  pub abandoned : Bool

abbrev pub or_empty_frame : Option Frame → Frame
or_empty_frame none = empty_frame
or_empty_frame (some r) = r

-- `_history_entry`, of a command; the duration and the actor are left out.
unfoldable pub history_exec : PastExec → HistoryExec
unfolding clip
history_exec e =
    let r = or_empty_frame e.result in
    let source = clip max_result (some e.source) in
    let out = clip max_stdout r.stdout in
    let value = clip max_result r.result in
    record {
      n = e.ordinal;
      source = source.0;
      status = e.status;
      stdout = filled out.0;
      result = value.0;
      error = r.error;
      truncated = source.1 || out.1 || value.1 || r.stdout_truncated;
      abandoned = e.abandoned;
    }
