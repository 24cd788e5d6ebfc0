-- ===== src/Session/Steps/Ended.antt =====
-- A session of odoo_sheller/session.py that is closed or dead.
use odoo_sheller.Common.{
  String, ◌≡◌, refl, inl, inr, Bool, true, false, ◌&&◌, Option, none, some, arith, Bool-cases,
  is_some,
}
use odoo_sheller.Session.Records.{closed, FrameKind, close, Reply}
use odoo_sheller.Session.Machine.{
  Hello, Phase, failed, expired, signalling, answered, draining, Task, Session, Trouble,
  session_dead, is_ended, ensure_acceptable, phase_of, find_task, has_waiter,
}
use odoo_sheller.Session.Commands.{take_id, execute, run_test_start, boundary_start}
use odoo_sheller.Session.Core.{
  Core, core, phase_of-find_task, at_state, freed, core-log, core-set_state, core-settle_abandoned,
  core-resolve_waiter, core-fail_pending_waiters,
}
use odoo_sheller.Session.Core.Commands.{
  core-time_out, core-finish_exec, core-finish_run, core-resume, core-abandon, core-resume_failed,
}
use odoo_sheller.Session.Steps.{
  Step, call_exec, call_run_test, call_boundary, call_close, call_kill, change_rights, read_hello,
  read_result, read_bye, read_overrun, reader_drained, process_ended, say_started, reach_ceiling,
  go_on, go_on_failed, go_on_expired, go_on_signalled, end_exec, end_run_test, ask_to_leave,
  end_close, end_kill,
}
use odoo_sheller.Session.Reader.{
  settle_abandoned, same_id, on_result, drain_with, drained, on_bye, on_hello, overrun_frame, die,
}
use odoo_sheller.Session.Endings.{
  resume_failed, finish_exec, finish_run, resume, time_out, abandon, started, close_start, ask,
  close_request, kill_start, kill_finish, close_finish,
}

abbrev IsOver : Core → Type 0
IsOver c = is_ended c.state ≡ true

freed-IsOver : (c : Core) → IsOver c → IsOver (freed c)
unfolding freed at_state
freed-IsOver c h = ground arith

closed-IsOver : (c : Core) → IsOver (at_state closed c)
unfolding at_state
closed-IsOver c = ground arith

settled-IsOver : (r : Reply) (s : Session) → IsOver (core s) → IsOver (core (settle_abandoned r s))
settled-IsOver r s h = rw core-settle_abandoned (freed-IsOver _ h)

on_result-IsOver : (r : Reply) (s : Session) → IsOver (core s) → IsOver (core (on_result r s))
unfolding on_result
on_result-IsOver r s h = elim (Bool-cases (same_id r.id s.abandoned_id)) [
  | inl a ↦ elim (Bool-cases (is_some s.run)) [
    | inl b ↦ rw (a, b) (unfold core in h)
    | inr b ↦ rw (a, b) (settled-IsOver r s h)
  ]
  | inr a ↦ elim (Bool-cases (has_waiter s && same_id r.id s.waiter)) [
    | inl b ↦ rw (a, b, core-resolve_waiter (answered r) s refl) h
    | inr b ↦ rw (a, b) h
  ]
]

on_bye-IsOver : (r : Reply) (s : Session) → IsOver (core s) → IsOver (core (on_bye r s))
unfolding on_bye
on_bye-IsOver r s h = elim (Bool-cases (has_waiter s && same_id r.id s.waiter)) [
  | inl b ↦ rw (b, core-resolve_waiter (answered r) s refl) h
  | inr b ↦ rw b h
]

overrun-IsOver : (s : Session) → IsOver (core s) → IsOver (core (overrun_frame s))
unfolding overrun_frame
overrun-IsOver s h = elim (Bool-cases (has_waiter s)) [
  | inl a ↦ rw (a, core-resolve_waiter _ s refl) h
  | inr a ↦ elim (Bool-cases (is_some s.abandoned_id)) [
    | inl b ↦ rw (a, b) (settled-IsOver _ s h)
    | inr b ↦ rw (a, b) h
  ]
]

drain_with-IsOver :
    (o : Option Reply) (s : Session) → IsOver (core s) → IsOver (core (drain_with o s))
drain_with-IsOver none s h = h
drain_with-IsOver (some r) s h = elim (Bool-cases (same_id r.id s.abandoned_id)) [
  | inl b ↦ rw b (settled-IsOver r s h)
  | inr b ↦ rw b h
]

ask-IsOver :
    (o : Option Trouble) (s : Session)
    → IsOver (core s)
    → ensure_acceptable close s ≡ o
    → IsOver (core (ask o s))
unfolding core
ask-IsOver (some x) s h a = h
ask-IsOver none s h a = absurd (unfold ensure_acceptable in ground arith)

kill_finish-IsOver : (d : Bool) (s : Session) → IsOver (core s) → IsOver (core (kill_finish d s))
unfolding kill_finish
kill_finish-IsOver true s h = h
kill_finish-IsOver false s h = rw (core-log, core-set_state) (closed-IsOver (core s))

module _ (s : Session) (h : IsOver (core s)) where
  started-IsOver : (g : Hello) → IsOver (core (started g s))
  unfolding started core
  started-IsOver g = let over : is_ended s.state ≡ true = h in rw over (ground arith)

  die-IsOver : (reason : String) → IsOver (core (die reason s))
  unfolding die core
  die-IsOver reason = let over : is_ended s.state ≡ true = h in ground arith

  kill_start-IsOver : IsOver (core (kill_start s))
  unfolding kill_start
  kill_start-IsOver = rw core-fail_pending_waiters (unfold core in h)

  close_start-IsOver : IsOver (core (close_start s))
  unfolding close_start core
  close_start-IsOver = let over : is_ended s.state ≡ true = h in rw over h

  module _ (t : Task) (found : find_task t.id s.tasks ≡ some t) where
    at_phase : (p : Phase) → t.phase ≡ p → phase_of t.id s.tasks ≡ some p
    at_phase p e = rw (← e) (phase_of-find_task t.id s.tasks t found)

    resume-IsOver : (r : Reply) → t.phase ≡ answered r → IsOver (core (resume t r s))
    resume-IsOver r e = rw (core-resume t r s (at_phase _ e)) (freed-IsOver _ h)

    resume_failed-IsOver : t.phase ≡ failed → IsOver (core (resume_failed t.kind t.id s))
    resume_failed-IsOver e = rw (core-resume_failed t s (at_phase _ e)) (freed-IsOver _ h)

    abandon-IsOver : t.phase ≡ expired → IsOver (core (abandon t s))
    abandon-IsOver e = rw (core-abandon t s (at_phase _ e)) h

    time_out-IsOver : t.phase ≡ signalling → IsOver (core (time_out t.kind t.id s))
    time_out-IsOver e = rw (core-time_out t.id signalling t.kind s (at_phase _ e)) h

    finish_exec-IsOver : (r : Reply) → t.phase ≡ draining r → IsOver (core (finish_exec t r s))
    finish_exec-IsOver r e = rw (core-finish_exec t r (draining r) s (at_phase _ e)) h

    finish_run-IsOver : (r : Reply) → t.phase ≡ draining r → IsOver (core (finish_run t.id r s))
    finish_run-IsOver r e = rw (core-finish_run t r (draining r) s (at_phase _ e)) h

  ask_to_leave-IsOver : IsOver (core (close_request s))
  unfolding close_request
  ask_to_leave-IsOver =
      ask-IsOver (ensure_acceptable close s) (take_id s) (unfold take_id core in h)
        (unfold take_id ensure_acceptable in refl)

  close_finish-IsOver : IsOver (core (close_finish s))
  unfolding close_finish
  close_finish-IsOver = rw (core-log, core-set_state) (closed-IsOver (core s))

  Step-IsOver : {t : Session} → Step s t → IsOver (core t)
  unfolding core
  Step-IsOver (call_exec text ro e) = absurd (unfold execute ensure_acceptable in ground arith)
  Step-IsOver (call_run_test m c f p e) =
      absurd (unfold run_test_start ensure_acceptable in ground arith)
  Step-IsOver (call_boundary b e) = absurd (unfold boundary_start ensure_acceptable in ground arith)
  Step-IsOver call_close = close_start-IsOver
  Step-IsOver call_kill = kill_start-IsOver
  Step-IsOver (change_rights r e) = h
  Step-IsOver (read_hello g e) = unfold on_hello in h
  Step-IsOver (read_result r e f) = on_result-IsOver r s h
  Step-IsOver (read_bye r e) = on_bye-IsOver r s h
  Step-IsOver (read_overrun e) = overrun-IsOver s h
  Step-IsOver reader_drained =
      unfold drained in drain_with-IsOver s.held (record s { held = none }) h
  Step-IsOver (process_ended reason) = die-IsOver reason
  Step-IsOver (say_started g e f) = started-IsOver g
  Step-IsOver (reach_ceiling n p e f) = h
  Step-IsOver (go_on u r e f) = resume-IsOver u e r f
  Step-IsOver (go_on_failed u e f) = resume_failed-IsOver u e f
  Step-IsOver (go_on_expired u e f) = abandon-IsOver u e f
  Step-IsOver (go_on_signalled u e f) = time_out-IsOver u e f
  Step-IsOver (end_exec u r e f) = finish_exec-IsOver u e r f
  Step-IsOver (end_run_test u r e f) = finish_run-IsOver u e r f
  Step-IsOver (ask_to_leave e) = ask_to_leave-IsOver
  Step-IsOver (end_close e) = close_finish-IsOver
  Step-IsOver (end_kill d e) = kill_finish-IsOver d s h

-- Everything that may happen from one moment to a later one.
pub data Later (s : Session) : Session → Type 0 where
  now : Later s s
  after : {t u : Session} → Later s t → Step t u → Later s u

Later-IsOver : {s t : Session} → Later s t → IsOver (core s) → IsOver (core t)
Later-IsOver now h = h
Later-IsOver (after p st) h = Step-IsOver _ (Later-IsOver p h) st

-- A session that is closed or dead stays so, whatever is called, read or scheduled afterwards: no
-- late answer, hello or end of a caller revives it, and it takes no command any more.
pub ended_for_good :
    {s t : Session}
    → Later s t
    → is_ended s.state ≡ true
    → (is_ended t.state ≡ true) × ((k : FrameKind) → ensure_acceptable k t ≡ some session_dead)
unfolding core
ended_for_good {s} {t} p h =
    let over : is_ended t.state ≡ true = Later-IsOver p h in
    (over, λ k. unfold ensure_acceptable in ground arith)
