-- ===== src/Session/Endings.antt =====
-- How the commands of odoo_sheller/session.py end, and how a session starts, closes and is killed.
use odoo_sheller.Common.{
  ℕ, ◌+◌, String, ◌⊎◌, inl, inr, Bool, true, false, not, ◌&&◌, ◌||◌, Option, none, some,
  if◌then◌else◌, ◌==◌, string_eq, nat_eq,
}
use odoo_sheller.Session.Records.{
  PolicyReason, commit_attempted, transaction_ended, ready, closed, FrameKind, exec, commit,
  rollback, run_test, close, Account, read, of_frame, Reply, session_open, session_close, result,
  timeout, boundary, interrupt,
}
use odoo_sheller.Session.Window.{Window, truncated}
use odoo_sheller.Session.Machine.{
  Hello, signalling, draining, Task, Run, Session, Trouble, session_not_ready, is_ended, log,
  set_pending, end_run, set_state, ensure_acceptable, set_phase, remove_task, request,
}
use odoo_sheller.Transport.{Target}
use odoo_sheller.Session.Reader.{maybe_autoclose, run_result, free, same_id, fail_pending_waiters}
use odoo_sheller.Session.Commands.{Raised, trouble, take_id, has_text}
use odoo_sheller.Session.Rights.{spend_production_grant}

-- The `finally` of `_request`: the waiter is forgotten if it is still this caller's, and the
-- session is ready again unless the command was abandoned.
unfoldable pub leave : ℕ → Session → Session
leave n s = free (record s { waiter = if same_id s.waiter (some n) then none else s.waiter })

unfoldable pub leave_abandoned : ℕ → Session → Session
leave_abandoned n s = record s { waiter = if same_id s.waiter (some n) then none else s.waiter }

unfoldable pub drop_task : ℕ → Session → Session
drop_task n s = record s { tasks = remove_task n s.tasks }

-- The `finally` of `_boundary`.
unfoldable pub spend : PolicyReason → Session → Session
spend reason s = record s { rights = spend_production_grant reason s.rights }

-- What the callers of `_request` do when it raises.
unfoldable pub unwind : FrameKind → ℕ → Session → Session
unwind commit n s = drop_task n (spend commit_attempted s)
unwind rollback n s = drop_task n (spend transaction_ended s)
unwind _ n s = drop_task n s

-- `_request` raises `SessionDead`; `run_test` lets go of its window.
unfoldable pub resume_failed : FrameKind → ℕ → Session → Session
resume_failed run_test n s = unwind run_test n (end_run (leave n s))
resume_failed k n s = unwind k n (leave n s)

-- An exec counts as pending work, unless the caller said that it writes nothing.
abbrev pub counted : Account → Session → Session
counted read s = s
counted (of_frame k) s = set_pending (s.pending_commands + 1) s.inherited_pending s

-- `execute`, once its answer and the drain are there
unfoldable pub finish_exec : Task → Reply → Session → Session
finish_exec t r s =
    let reply : Reply = record r {
      stderr = elim t.window [ none ↦ none | some w ↦ some (w.lines, truncated w) ];
    } in
    counted t.account (drop_task t.id (log (result reply) s))

-- `run_test`, once its answer and the drain are there. Where the session ended in the drain there
-- is no `_run` to read, and the caller gets a `TypeError`.
abbrev pub finish_with : Option Run → ℕ → Reply → Session → Session
finish_with none n r s = drop_task n s
finish_with (some run) n r s =
    drop_task n (maybe_autoclose (log (result (run_result r run s.test_failed)) (end_run s)))

unfoldable pub finish_run : ℕ → Reply → Session → Session
finish_run n r s = finish_with s.run n r s

-- What `_boundary` does where the transaction is over: nobody's work is pending.
abbrev pub transaction_over : Reply → Session → Session
transaction_over r s = elim r.error [ none ↦ set_pending 0 0 s | some e ↦ s ]

-- `_boundary`, once its answer is there
unfoldable pub finish_boundary : FrameKind → PolicyReason → ℕ → Reply → Session → Session
finish_boundary k reason n r s =
    let t = spend reason s in
    drop_task n (transaction_over r (log (boundary k (some n) r.error t.owner false) t))

abbrev pub quiet : Option Window → Bool
quiet none = true
quiet (some w) = w.total == 0

unfoldable pub start_drain : Task → Reply → Session → Session
start_drain t r s = record s { tasks = set_phase t.id (draining r) s.tasks }

-- What the callers of `_request` do with an answer: an exec that logged nothing and a boundary go
-- on at once, the others wait for stderr to drain.
abbrev pub deliver : FrameKind → Task → Reply → Session → Session
deliver exec t r s = if quiet t.window then finish_exec t r s else start_drain t r s
deliver run_test t r s = start_drain t r s
deliver commit t r s = finish_boundary commit commit_attempted t.id r s
deliver rollback t r s = finish_boundary rollback transaction_ended t.id r s
deliver close t r s = drop_task t.id s

-- `_request` returns.
unfoldable pub resume : Task → Reply → Session → Session
resume t r s = deliver t.kind t r (leave t.id s)

-- `_request` after the ceiling, once SIGINT was sent or there is no pid to send it to
unfoldable pub time_out : FrameKind → ℕ → Session → Session
time_out k n s = unwind k n (leave_abandoned n (log (timeout n) s))

abbrev pub has_pid : Option Hello → Bool
has_pid none = false
has_pid (some h) = elim h.pid [ none ↦ false | some p ↦ not (p == 0) ]

-- `_request` when the ceiling is reached
unfoldable pub abandon : Task → Session → Session
abandon t s =
    let u : Session = record s { abandoned_id = some t.id; abandoned_kind = some t.account } in
    if has_pid s.hello
    then record u { tasks = set_phase t.id signalling u.tasks }
    else time_out t.kind t.id u

-- The database is the target's, or else the one that the shell opened.
abbrev pub database_of : Option String → Option String → Option String
database_of asked opened = if not (has_text asked) && has_text opened then opened else asked

-- `start`, once the hello frame is there
unfoldable pub started : Hello → Session → Session
started h s =
    let t : Session = record s { hello = some h } in
    let target : Target = record s.target { database = database_of s.target.database h.db } in
    let u : Session = record t { rights = record t.rights { target = target } } in
    if s.closing || is_ended s.state
    then t
    else log (session_open u.owner u.allow_commit u.commit_grant) (set_state ready u)

-- `close`, up to its first await; nothing at all in a session that has ended
unfoldable pub close_start : Session → Session
close_start s = if is_ended s.state then s else fail_pending_waiters (record s { closing = true })

-- `close` asks the process to leave. What the request raises is suppressed, but its id is taken.
abbrev pub ask : Option Trouble → Session → Session
ask (some e) s = s
ask none s = request close s.next_id (of_frame close) none s

unfoldable pub close_request : Session → Session
close_request s = ask (ensure_acceptable close s) (take_id s)

-- `kill`, up to its first await
unfoldable pub kill_start : Session → Session
kill_start s = fail_pending_waiters (record s { closing = true })

-- `kill`, once the process is gone; `was_dead` is read when it starts
unfoldable pub kill_finish : Bool → Session → Session
kill_finish was_dead s = if was_dead then s else log (session_close true) (set_state closed s)

-- `close`, once the process has left
unfoldable pub close_finish : Session → Session
close_finish s = log (session_close false) (set_state closed s)

-- `interrupt`, once the signal was sent
unfoldable pub interrupt_session : Session → Raised ⊎ Session
interrupt_session s =
    if has_pid s.hello then inr (log (interrupt s.owner) s) else inl (trouble session_not_ready)
