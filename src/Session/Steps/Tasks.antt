-- ===== src/Session/Steps/Tasks.antt =====
-- The callers of odoo_sheller/session.py that go on after an await keep the invariant.
use odoo_sheller.Common.{ℕ, ◌+◌, ◌-◌, ◌≤◌, ◌≡◌, refl, Bool, true, false, some, arith}
use odoo_sheller.Session.Records.{Reply, session_close}
use odoo_sheller.Session.Machine.{
  Phase, failed, expired, signalling, answered, draining, Task, Session, phase_of, find_task,
  set_phase,
}
use odoo_sheller.Session.Core.{load_phase, core, phase_of-find_task}
use odoo_sheller.Session.Core.Commands.{
  unload, load_phase-le, core-set_phase, core-time_out, core-finish_exec, core-finish_run,
  core-resume, core-abandon, core-resume_failed,
}
use odoo_sheller.Session.Steps.Invariant.{IsOrderly, unload-IsOrderly, abandoned-IsOrderly}
use odoo_sheller.Session.Steps.Process.{closed-IsOrderly}
use odoo_sheller.Session.Endings.{
  resume_failed, finish_exec, finish_run, resume, time_out, abandon, kill_finish, close_finish,
}

pub kill_finish-IsOrderly :
    (was_dead : Bool) (s : Session) → IsOrderly (core s) → IsOrderly (core (kill_finish was_dead s))
unfolding kill_finish
kill_finish-IsOrderly true s h = h
kill_finish-IsOrderly false s h = closed-IsOrderly (session_close true) s h

pub close_finish-IsOrderly : (s : Session) → IsOrderly (core s) → IsOrderly (core (close_finish s))
unfolding close_finish
close_finish-IsOrderly s h = closed-IsOrderly (session_close false) s h

module _ (t : Task) (s : Session) (h : IsOrderly (core s))
    (found : find_task t.id s.tasks ≡ some t) where
  at_phase : (p : Phase) → t.phase ≡ p → phase_of t.id s.tasks ≡ some p
  at_phase p e = rw (← e) (phase_of-find_task t.id s.tasks t found)

  loaded : (p : Phase) → t.phase ≡ p → load_phase p ≤ (core s).load
  unfolding core
  loaded p e = load_phase-le t.id p s.tasks (at_phase p e)

  light : (p : Phase) → load_phase p ≡ 0 → IsOrderly (unload p (core s))
  light p e = record {
    idle = ground (arith, h.idle);
    single = ground (arith, h.single);
    early = h.early;
    named = h.named;
  }

  pub resume-IsOrderly : (r : Reply) → t.phase ≡ answered r → IsOrderly (core (resume t r s))
  resume-IsOrderly r e =
      rw (core-resume t r s (at_phase _ e))
        (unload-IsOrderly (core s) (answered r) h refl (loaded _ e))

  pub resume_failed-IsOrderly : t.phase ≡ failed → IsOrderly (core (resume_failed t.kind t.id s))
  resume_failed-IsOrderly e =
      rw (core-resume_failed t s (at_phase _ e))
        (unload-IsOrderly (core s) failed h refl (loaded _ e))

  pub abandon-IsOrderly : t.phase ≡ expired → IsOrderly (core (abandon t s))
  abandon-IsOrderly e =
      rw (core-abandon t s (at_phase _ e)) (abandoned-IsOrderly (core s) t.id h (loaded _ e))

  pub time_out-IsOrderly : t.phase ≡ signalling → IsOrderly (core (time_out t.kind t.id s))
  time_out-IsOrderly e =
      rw (core-time_out t.id signalling t.kind s (at_phase _ e)) (light signalling refl)

  pub finish_exec-IsOrderly :
      (r : Reply) → t.phase ≡ draining r → IsOrderly (core (finish_exec t r s))
  finish_exec-IsOrderly r e =
      rw (core-finish_exec t r (draining r) s (at_phase _ e)) (light (draining r) refl)

  pub finish_run-IsOrderly :
      (r : Reply) → t.phase ≡ draining r → IsOrderly (core (finish_run t.id r s))
  finish_run-IsOrderly r e =
      rw (core-finish_run t r (draining r) s (at_phase _ e)) (light (draining r) refl)

pub ceiling-IsOrderly :
    (n : ℕ) (p : Phase) (s : Session)
    → IsOrderly (core s)
    → phase_of n s.tasks ≡ some p
    → load_phase p ≡ 1
    → IsOrderly (core (record s { tasks = set_phase n expired s.tasks }))
ceiling-IsOrderly n p s h e f =
    let same : (core s).load - load_phase p + 1 ≡ (core s).load =
      unfold core in omega (arith, load_phase-le n p s.tasks e, f) in
    rw (core-set_phase n p expired s e) (unfold core in rw same h)
