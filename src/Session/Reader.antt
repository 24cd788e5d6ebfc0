-- ===== src/Session/Reader.antt =====
-- What a session of odoo_sheller/session.py does with the frames that its process writes, with the
-- late answer of a command that was abandoned, and with the end of the process.
use odoo_sheller.Common.{
  ℕ, ◌+◌, String, Bool, true, false, not, ◌&&◌, ◌||◌, Option, none, some, List, if◌then◌else◌, ◌==◌,
  string_eq, nat_eq, is_some,
}
use odoo_sheller.Session.Records.{
  ready, busy, dead, exec, commit, rollback, run_test, Account, of_frame, Failure, Report, Reply,
  session_died, abandoned_result, boundary, autoclose_event,
}
use odoo_sheller.Session.Window.{truncated}
use odoo_sheller.Session.Machine.{
  Hello, Starter, awaiting, refused, arrived, failed, answered, Run, Session, same_state, is_ended,
  log, emit, set_pending, end_run, set_state, has_waiter, resolve_waiter,
}

-- `_maybe_autoclose`
unfoldable pub maybe_autoclose : Session → Session
maybe_autoclose s =
    if not (s.autoclose && s.ran_test) || s.autoclose_announced
    then s
    else emit autoclose_event (record s { autoclose_announced = true })

-- `_run_result`, but for what Hoot reported
unfoldable pub run_result : Reply → Run → List Failure → Reply
run_result frame run failures =
    let skipped : Option String = if run.browser then run.js_skip else none in
    let report : Report = record {
      failed = failures;
      discarded_pending = run.discarded_pending;
      skipped = skipped;
    } in
    let stderr : Option (List String × Bool) = some (run.window.lines, truncated run.window) in
    elim skipped [
      | none ↦ record frame { stderr = stderr; report = some report }
      | some why ↦ record frame {
        success = elim frame.success [ none ↦ none | some b ↦ some false ];
        error = elim frame.error [ none ↦ some "js_tests_skipped" | some e ↦ some e ];
        stderr = stderr;
        report = some report;
      }
    ]

-- What `_settle_abandoned` does with a boundary that ended the transaction late.
abbrev pub late_transaction_over : Reply → Session → Session
late_transaction_over r s = elim r.error [ none ↦ set_pending 0 0 s | some e ↦ s ]

-- How `_settle_abandoned` books the answer of the command that was abandoned.
unfoldable pub book_late : Option Account → Reply → Session → Session
book_late (some (of_frame exec)) r s = set_pending (s.pending_commands + 1) s.inherited_pending s
book_late (some (of_frame commit)) r s =
    late_transaction_over r (log (boundary commit r.id r.error s.owner true) s)
book_late (some (of_frame rollback)) r s =
    late_transaction_over r (log (boundary rollback r.id r.error s.owner true) s)
book_late _ r s = s

abbrev is_run : Option Account → Bool
is_run (some (of_frame run_test)) = true
is_run _ = false

-- The late answer of a run is completed like one in time.
unfoldable pub late_reply : Option Account → Reply → Session → Reply × Session
late_reply k r s = elim s.run [
  | none ↦ (r, s)
  | some run ↦ if is_run k then (run_result r run s.test_failed, end_run s) else (r, s)
]

-- `_set_state(READY)`, unless the session is closing or not busy
unfoldable pub free : Session → Session
free s = if same_state s.state busy && not s.closing then set_state ready s else s

-- `_settle_abandoned`
unfoldable pub settle_abandoned : Reply → Session → Session
settle_abandoned frame s =
    let kind = s.abandoned_kind in
    let (r, s1) = late_reply kind frame (record s { abandoned_id = none; abandoned_kind = none }) in
    maybe_autoclose (free (book_late kind r (log (abandoned_result r) s1)))

-- `frame.get("id") == self._abandoned_id`
abbrev pub same_id : Option ℕ → Option ℕ → Bool
same_id none none = true
same_id (some a) (some b) = a == b
same_id _ _ = false

-- `_read_frames` on a `result` frame. While it holds a late answer to a run the reader reads no
-- other frame.
unfoldable pub on_result : Reply → Session → Session
on_result r s =
    if same_id r.id s.abandoned_id
    then (if is_some s.run then record s { held = some r } else settle_abandoned r s)
    else if has_waiter s && same_id r.id s.waiter
    then resolve_waiter (answered r) s
    else s

-- The reader goes on after the drain, if the command is still the abandoned one.
abbrev pub drain_with : Option Reply → Session → Session
drain_with none s = s
drain_with (some r) s = if same_id r.id s.abandoned_id then settle_abandoned r s else s

unfoldable pub drained : Session → Session
drained s = drain_with s.held (record s { held = none })

-- `_read_frames` on a `bye` frame
unfoldable pub on_bye : Reply → Session → Session
on_bye r s = if has_waiter s && same_id r.id s.waiter then resolve_waiter (answered r) s else s

abbrev greet : Hello → Starter → Starter
greet h awaiting = arrived h
greet h x = x

-- `_read_frames` on a `hello` frame
unfoldable pub on_hello : Hello → Session → Session
on_hello h s = record s { starter = greet h s.starter }

-- `_overrun_frame`
unfoldable pub overrun_frame : Session → Session
overrun_frame s =
    let error : Reply = record {
      id = if has_waiter s then s.waiter else s.abandoned_id;
      error = some "FrameTooLarge";
      success = none;
      stderr = none;
      report = none;
    } in
    if has_waiter s
    then resolve_waiter (answered error) s
    else if is_some s.abandoned_id
    then settle_abandoned error s
    else s

abbrev turn_away : Starter → Starter
turn_away awaiting = refused
turn_away x = x

-- `_fail_pending_waiters`
unfoldable pub fail_pending_waiters : Session → Session
fail_pending_waiters s =
    let t = resolve_waiter failed s in record t { starter = turn_away t.starter }

-- `_die`
unfoldable pub die : String → Session → Session
die reason s =
    if s.closing || is_ended s.state
    then s
    else fail_pending_waiters (maybe_autoclose (log (session_died reason) (set_state dead s)))
