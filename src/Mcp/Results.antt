-- ===== src/Mcp/Results.antt =====
-- How odoo_sheller/mcp.py shapes the answer to a command or a run.
-- Limits are in characters; `journal` says whether the answer names the session's journal.
pub mod Past
pub mod Whole
use odoo_sheller.TestLog.{Hoot, Failure}
use odoo_sheller.Common.{
  ℕ, String, Bool, false, not, ◌&&◌, ◌||◌, Option, none, some, List, [], ltb, if◌then◌else◌,
  is_some, length, join, has_char,
}
use odoo_sheller.Protocol.{spec_of}
use odoo_sheller.Mcp.{clip, clip_tail}

abbrev pub max_stdout : ℕ
max_stdout = 4000

abbrev pub max_result : ℕ
max_result = 2000

-- What a result frame says, as the daemon answers with it.
pub record Frame : Type 0 where
  pub stdout : Option String
  pub result : Option String
  pub error : Option String
  pub stderr : Option (List String)
  pub stderr_truncated : Bool
  pub stdout_truncated : Bool
  pub duration : Option ℕ

abbrev pub lines_of : Option (List String) → List String
lines_of none = []
lines_of (some ls) = ls

pub record ExecAnswer : Type 0 where
  pub stdout : Option String
  pub result : Option String
  pub error : Option String
  pub stderr_lines : ℕ
  pub duration : Option ℕ
  -- the log and whether the daemon dropped lines, if the log was asked for
  pub stderr : Option (String × Bool)
  pub truncated : Bool
  pub journal : Bool

-- `os_exec`, behind its call
unfoldable pub exec_answer : Bool → Frame → ExecAnswer
unfolding clip clip_tail
exec_answer with_log r =
    let out = clip max_stdout r.stdout in
    let value = clip max_result r.result in
    let lines = lines_of r.stderr in
    let log = clip_tail max_stdout (join "\n" lines) in
    let clipped = out.1 || value.1 || (with_log && log.1) in
    record {
      stdout = out.0;
      result = value.0;
      error = r.error;
      stderr_lines = length lines;
      duration = r.duration;
      stderr = if with_log then some (log.0, r.stderr_truncated) else none;
      truncated = clipped;
      journal = clipped || (ltb 0 (length lines) && not with_log);
    }

pub record Counts : Type 0 where
  pub tests_run : ℕ
  pub failures : ℕ
  pub errors : ℕ
  pub skipped : ℕ
  pub success : Bool

-- The answer to a run: a frame with `_run_result`'s additions.
pub record RunFrame : Type 0 where
  pub frame : Frame
  pub test : Option Counts
  pub failed : Option (List Failure)
  pub discarded_pending : Option Bool
  pub hoot : Option Hoot

-- `_test_log`: the log, or the number of its lines, and whether the log was clipped
unfoldable pub test_log : String → Option (List String) → Option String × Option ℕ × Bool
unfolding clip_tail
test_log test stderr =
    let lines = lines_of stderr in
    let tail = clip_tail max_stdout (join "\n" lines) in
    if not (has_char b'.' test)
    then (none, some (length lines), false)
    else (some tail.0, none, tail.1)

pub record RunAnswer : Type 0 where
  pub test : String
  pub counts : Option Counts
  pub failed : List Failure
  pub stdout : Option String
  pub stderr : Option String
  pub stderr_lines : Option ℕ
  pub error : Option String
  pub duration : Option ℕ
  pub discarded_pending : Option Bool
  pub stderr_truncated : Bool
  pub truncated : Bool
  pub journal : Bool
  pub hoot : Option Hoot

abbrev pub failures_of : Option (List Failure) → List Failure
failures_of none = []
failures_of (some fs) = fs

-- `_run_test_in`, behind its call
unfoldable pub run_answer : String → Option String → RunFrame → RunAnswer
unfolding clip test_log
run_answer test params r =
    let out = clip max_stdout r.frame.stdout in
    let log = test_log test r.frame.stderr in
    let truncated = out.1 || log.2 in
    record {
      test = spec_of test none none params;
      counts = r.test;
      failed = failures_of r.failed;
      stdout = out.0;
      stderr = log.0;
      stderr_lines = log.1;
      error = r.frame.error;
      duration = r.frame.duration;
      discarded_pending = r.discarded_pending;
      stderr_truncated = r.frame.stderr_truncated;
      truncated = truncated;
      journal = truncated || is_some log.1;
      hoot = r.hoot;
    }
