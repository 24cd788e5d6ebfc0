-- ===== src/Session/Commands.antt =====
-- The commands of `Session` in odoo_sheller/session.py, cut at their awaits: what each does before
-- it suspends, and what it does when it goes on.
use odoo_sheller.Protocol.{spec_of}
use odoo_sheller.Rules.{major_of}
use odoo_sheller.Session.Rights.{may_commit, Refusal}
use odoo_sheller.Common.{
  ℕ, ◌+◌, String, ◌⊎◌, inl, inr, Bool, true, false, not, ◌&&◌, ◌||◌, Option, none, some, [], ltb,
  if◌then◌else◌, ◌==◌, string_eq, nat_eq,
}
use odoo_sheller.Session.Records.{
  FrameKind, exec, commit, rollback, run_test, Account, read, of_frame, exec_sent, run_sent,
  progress_event,
}
use odoo_sheller.Session.Window.{empty_window}
use odoo_sheller.Session.Machine.{
  Hello, Run, Progress, Session, Trouble, log, emit, set_pending, ensure_acceptable, request,
}

-- What a command that is not taken raises.
pub data Raised : Type 0 where
  trouble : Trouble → Raised
  refusal : Refusal → Raised
  run_params_unsupported : Raised

abbrev pub exec_stderr_limit : ℕ
exec_stderr_limit = 2000

abbrev pub run_stderr_limit : ℕ
run_stderr_limit = 20000

abbrev pub hoot_test : String
hoot_test = "web.WebSuite.test_unit_desktop"

-- `_take_id`; the id is the new `next_id`
unfoldable pub take_id : Session → Session
take_id s = record s { next_id = s.next_id + 1 }

abbrev pub exec_account : Bool → Account
exec_account read_only = if read_only then read else of_frame exec

-- `execute`, up to its await
unfoldable pub execute : String → Bool → Session → Raised ⊎ Session
execute text read_only s = elim (ensure_acceptable exec s) [
  | some t ↦ inl (trouble t)
  | none ↦
      let t = take_id s in
      inr (
        request exec t.next_id (exec_account read_only) (some (empty_window exec_stderr_limit))
          (log (exec_sent t.next_id text s.owner read_only) t))
]

abbrev pub has_text : Option String → Bool
has_text none = false
has_text (some s) = not (s == "")

-- `params and major is not None and major < 16`
unfoldable pub params_refused : Option String → Option Hello → Bool
params_refused params hello = has_text params && elim hello [
  | none ↦ false
  | some h ↦ elim (major_of h.odoo) [ none ↦ false | some m ↦ ltb m 16 ]
]

-- What `run_test` does before it sends its frame, whose id is the new `next_id`.
unfoldable pub prepare_run :
    String → Option String → Option String → Option String → Session → Session
prepare_run module_name test_class test_method params s =
    let spec = spec_of module_name test_class test_method params in
    let t = take_id (set_pending 0 0 s) in
    let run : Run = record {
      window = empty_window run_stderr_limit;
      discarded_pending = ltb 0 s.pending_commands;
      params = params;
      browser = has_text params || spec_of module_name test_class test_method none == hoot_test;
      js_skip = none;
    } in
    let progress : Progress = record {
      spec = spec;
      current = none;
      started = 0;
      failures = 0;
      errors = 0;
      skipped = 0;
    } in
    let u = log (run_sent t.next_id spec s.owner) t in
    let v = emit progress_event (record u { ran_test = true; progress = some progress }) in
    record v { test_failed = []; test_module = some module_name; run = some run }

-- `run_test`, up to its await
unfoldable pub run_test_start :
    String → Option String → Option String → Option String → Session → Raised ⊎ Session
run_test_start module_name test_class test_method params s =
    let t = prepare_run module_name test_class test_method params s in
    elim (ensure_acceptable run_test s) [
      | some e ↦ inl (trouble e)
      | none ↦
          if params_refused params s.hello
          then inl run_params_unsupported
          else inr (request run_test t.next_id (of_frame run_test) none t)
    ]

abbrev pub frame_of : Bool → FrameKind
frame_of true = commit
frame_of false = rollback

-- `_boundary`, up to its await; `is_commit` tells the two apart
unfoldable pub boundary_start : Bool → Session → Raised ⊎ Session
boundary_start is_commit s =
    let t = take_id s in
    elim (if is_commit then may_commit s.rights else none) [
      | some r ↦ inl (refusal r)
      | none ↦ elim (ensure_acceptable (frame_of is_commit) s) [
        | some e ↦ inl (trouble e)
        | none ↦ inr (request (frame_of is_commit) t.next_id (of_frame (frame_of is_commit)) none t)
      ]
    ]
