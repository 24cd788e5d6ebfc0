-- ===== src/Tests/Books.antt =====
-- Runs of odoo_sheller/session.py in which commands overrun their ceiling or the session ends.
use odoo_sheller.Session.Steps.Accepting
use odoo_sheller.Session.Steps.Ended
use odoo_sheller.Session.Window.Tail
use odoo_sheller.Session.Ledger.Booking
use odoo_sheller.Session.Ledger.Spending
use odoo_sheller.Common.{
  ◌+◌, ◌-◌, String, ◌≡◌, refl, inl, inr, Bool, true, false, ◌&&◌, none, some, List, [], ◌∷◌, ltb,
  if◌then◌else◌, is_some, length, drop,
}
use odoo_sheller.Session.Records.{PolicyReason, FrameKind, commit, of_frame}
use odoo_sheller.Session.Rights.{init, set_allow_commit, may_commit}
use odoo_sheller.Session.Machine.{
  expired, Task, Session, session_dead, is_ended, log, emit, end_run, stop_activity, set_state,
  ensure_acceptable, has_waiter, resolve_waiter, request,
}
use odoo_sheller.Session.Commands.{take_id, exec_account, frame_of, boundary_start}
use odoo_sheller.Session.Steps.{fresh_session, read_result}
use odoo_sheller.Session.Ledger.{ledger}
use odoo_sheller.Session.Window.{empty_window, truncated}
use odoo_sheller.Transport.{target_name, is_remote, on_production}
use odoo_sheller.Tests.Sessions.{granted_build, greeting, ready_session, answer}
use odoo_sheller.Session.Reader.{
  maybe_autoclose, settle_abandoned, on_result, on_hello, fail_pending_waiters, die,
}
use odoo_sheller.Session.Endings.{
  resume_failed, finish_exec, finish_boundary, resume, time_out, abandon, started,
}

abbrev dead_session : Session
dead_session = die "process ended" ready_session

answered_late : Ended.Later dead_session (on_result answer dead_session)
unfolding die log set_state started on_hello maybe_autoclose fail_pending_waiters resolve_waiter
    emit stop_activity end_run
answered_late = Ended.after Ended.now (read_result answer refl refl)

ended_for_good_example :
    (is_ended (on_result answer dead_session).state ≡ true)
    × ((k : FrameKind) → ensure_acceptable k (on_result answer dead_session) ≡ some session_dead)
unfolding die log set_state started on_hello maybe_autoclose fail_pending_waiters resolve_waiter
    emit stop_activity end_run has_waiter
ended_for_good_example = Ended.ended_for_good answered_late refl

-- A session on production with the grant, and a commit on its way
abbrev granted_session : Session
granted_session = started greeting (on_hello greeting (fresh_session granted_build false))

abbrev committing : Session
committing = elim (boundary_start true granted_session) [ inr t ↦ t | inl e ↦ granted_session ]

abbrev commit_task : Task
commit_task = record {
  id = 1;
  kind = commit;
  account = of_frame commit;
  phase = expired;
  window = none;
}

second_commit_example :
    Accepting.taken (boundary_start true (on_result answer (abandon commit_task committing))) ≡ true
unfolding init set_allow_commit target_name on_production started on_hello boundary_start may_commit
    ensure_acceptable take_id request set_state log emit stop_activity end_run is_remote
second_commit_example =
    Spending.second_commit commit_task answer committing refl refl refl refl refl refl refl

boundary_spends_example :
    let held = λ (u : Session). on_production u.target && u.allow_commit in
    (held (resume commit_task answer committing) ≡ false)
    × (held (resume_failed commit 1 committing) ≡ false)
    × (held (time_out commit 1 committing) ≡ false)
boundary_spends_example = Spending.boundary_spends commit_task true committing answer refl

abbrev overdue : Session
overdue = record committing { abandoned_id = some 1; abandoned_kind = some (of_frame commit) }

settle_abandoned-in_time_example :
    ((read_only : Bool)
      → of_frame commit ≡ exec_account read_only
      → let more = if read_only then overdue.pending_commands else overdue.pending_commands + 1 in
        ((settle_abandoned answer overdue).pending_commands ≡ more)
        × ((settle_abandoned answer overdue).inherited_pending ≡ overdue.inherited_pending)
        × (ledger (settle_abandoned answer overdue)
            ≡ ledger (finish_exec commit_task answer overdue)))
    × ((is_commit : Bool) (reason : PolicyReason)
        → of_frame commit ≡ of_frame (frame_of is_commit)
        → let late = settle_abandoned answer overdue in
          let timely = finish_boundary (frame_of is_commit) reason 1 answer overdue in
          (timely.pending_commands ≡ (if is_some answer.error then overdue.pending_commands else 0))
          × (timely.inherited_pending
              ≡ (if is_some answer.error then overdue.inherited_pending else 0))
          × (late.pending_commands ≡ timely.pending_commands)
          × (late.inherited_pending ≡ timely.inherited_pending))
settle_abandoned-in_time_example = Booking.settle_abandoned-in_time commit_task answer overdue refl

abbrev logged : List String
logged = "one" ∷ "two" ∷ "three" ∷ []

append_all-tail_example :
    let w = Tail.append_all logged (empty_window 2) in
    (w.lines ≡ drop (length logged - 2) logged)
    × (w.total ≡ length logged)
    × (truncated w ≡ ltb 2 (length logged))
append_all-tail_example = Tail.append_all-tail 2 logged
