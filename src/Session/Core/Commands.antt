-- ===== src/Session/Core/Commands.antt =====
-- The commands of odoo_sheller/session.py on the view of Session/Core.antt.
use odoo_sheller.Common.{
  ℕ, ◌+◌, ◌-◌, ◌≤◌, ◌≡◌, refl, ap, ◌∙◌, inl, inr, not, ◌&&◌, Option, none, some, List, [], ◌∷◌,
  arith, ◌==◌, string_eq, nat_eq, Bool-cases, Option-cases,
}
use odoo_sheller.Session.Records.{
  PolicyReason, commit_attempted, transaction_ended, State, starting, ready, busy, FrameKind, exec,
  commit, rollback, run_test, close, Account, read, of_frame, Reply, result,
}
use odoo_sheller.Session.Machine.{
  Phase, failed, expired, signalling, answered, draining, Task, Run, Session, same_state, log, emit,
  set_pending, end_run, stop_activity, set_state, phase_of, set_phase, request,
}
use odoo_sheller.Session.Core.{
  load_phase, load, Core, core, load-set_phase, load-remove_task, load-append, at_state, freed,
  core-log, core-set_pending, core-end_run, core-maybe_autoclose, core-set_state, core-free,
}
use odoo_sheller.Session.Window.{Window}
use odoo_sheller.Session.Reader.{maybe_autoclose, run_result, free}
use odoo_sheller.Session.Endings.{
  leave, leave_abandoned, drop_task, spend, unwind, resume_failed, counted, finish_exec,
  finish_with, finish_run, finish_boundary, quiet, start_drain, deliver, resume, time_out, has_pid,
  abandon,
}

-- A caller goes on, and no longer counts.
abbrev pub unload : Phase → Core → Core
unload p c = record c { load = c.load - load_phase p }

module _ (n : ℕ) (p : Phase) where
  pub load_phase-le : (ts : List Task) → phase_of n ts ≡ some p → load_phase p ≤ load ts
  load_phase-le [] h = cc
  load_phase-le (t ∷ ts) h = elim (Bool-cases (t.id == n)) [
    | inl e ↦ let same : t.phase ≡ p = ground arith in rw (← same) (omega arith)
    | inr e ↦ omega (arith, load_phase-le ts (rw e at h))
  ]

  pub core-set_phase :
      (q : Phase) (s : Session)
      → phase_of n s.tasks ≡ some p
      → core (record s { tasks = set_phase n q s.tasks })
        ≡ record (core s) { load = load s.tasks - load_phase p + load_phase q }
  unfolding core
  core-set_phase q s h =
      ap (λ (k : ℕ). record (core s) { load = k })
        (omega (arith, load-set_phase n p q s.tasks h, load_phase-le s.tasks h))

  pub core-drop_task :
      (s : Session) → phase_of n s.tasks ≡ some p → core (drop_task n s) ≡ unload p (core s)
  unfolding core drop_task
  core-drop_task s h =
      ap (λ (k : ℕ). record (core s) { load = k }) (omega (arith, load-remove_task n p s.tasks h))

  pub core-unwind :
      (k : FrameKind) (s : Session)
      → phase_of n s.tasks ≡ some p
      → core (unwind k n s) ≡ unload p (core s)
  unfolding unwind spend core
  core-unwind commit s h = core-drop_task _ h
  core-unwind rollback s h = core-drop_task _ h
  core-unwind _ s h = core-drop_task s h

  pub core-time_out :
      (k : FrameKind) (s : Session)
      → phase_of n s.tasks ≡ some p
      → core (time_out k n s) ≡ unload p (core s)
  unfolding time_out leave_abandoned log core
  core-time_out k s h = core-unwind k _ h

pub core-request :
    (k : FrameKind) (n : ℕ) (a : Account) (w : Option Window) (s : Session)
    → core (request k n a w s) ≡ at_state busy (record (core s) { load = load s.tasks + 1 })
unfolding request core
core-request k n a w s =
    core-set_state busy _
    ∙ ap (λ (m : ℕ). at_state busy (record (core s) { load = m })) (load-append s.tasks _)

pub core-leave : (n : ℕ) (s : Session) → core (leave n s) ≡ freed (core s)
unfolding leave core
core-leave n s = core-free _

tasks-set_state : (st : State) (s : Session) → (set_state st s).tasks ≡ s.tasks
unfolding set_state emit end_run stop_activity
tasks-set_state starting s = ground arith
tasks-set_state st s = ground arith

pub tasks-leave : (n : ℕ) (s : Session) → (leave n s).tasks ≡ s.tasks
unfolding leave free
tasks-leave n s = elim (Bool-cases (same_state s.state busy && not s.closing)) [
  | inl e ↦ rw e (tasks-set_state ready _)
  | inr e ↦ rw e
]

pub tasks-maybe_autoclose : (s : Session) → (maybe_autoclose s).tasks ≡ s.tasks
unfolding maybe_autoclose emit
tasks-maybe_autoclose s = ground arith

core-counted : (a : Account) (s : Session) → core (counted a s) ≡ core s
core-counted read s = refl
core-counted (of_frame k) s = core-set_pending _ _ s

module _ (t : Task) (r : Reply) (p : Phase) where
  pub core-finish_exec :
      (s : Session) → phase_of t.id s.tasks ≡ some p → core (finish_exec t r s) ≡ unload p (core s)
  unfolding finish_exec log core
  core-finish_exec s h = core-counted t.account _ ∙ core-drop_task t.id p _ h

  pub core-finish_boundary :
      (k : FrameKind) (reason : PolicyReason) (s : Session)
      → phase_of t.id s.tasks ≡ some p
      → core (finish_boundary k reason t.id r s) ≡ unload p (core s)
  unfolding finish_boundary spend log core set_pending
  core-finish_boundary k reason s h = elim (Option-cases r.error) [
    | inl e ↦ rw e (core-drop_task t.id p _ h)
    | inr (x, e) ↦ rw e (core-drop_task t.id p _ h)
  ]

  finish_with-core :
      (run : Option Run) (s : Session)
      → phase_of t.id s.tasks ≡ some p
      → core (finish_with run t.id r s) ≡ unload p (core s)
  finish_with-core none s h = core-drop_task t.id p s h
  finish_with-core (some run) s h =
      let u = log (result (run_result r run s.test_failed)) (end_run s) in
      let kept : u.tasks ≡ s.tasks = unfold log end_run in refl in
      core-drop_task t.id p (maybe_autoclose u) (rw (tasks-maybe_autoclose u, kept) h)
      ∙ ap (unload p) (core-maybe_autoclose u ∙ core-log _ (end_run s) ∙ core-end_run s)

  pub core-finish_run :
      (s : Session)
      → phase_of t.id s.tasks ≡ some p
      → core (finish_run t.id r s) ≡ unload p (core s)
  unfolding finish_run
  core-finish_run s h = finish_with-core s.run s h

module _ (t : Task) (r : Reply) where
  core-start_drain :
      (s : Session)
      → phase_of t.id s.tasks ≡ some (answered r)
      → core (start_drain t r s) ≡ unload (answered r) (core s)
  unfolding start_drain core
  core-start_drain s h =
      core-set_phase t.id (answered r) (draining r) s h
      ∙ ap (λ (k : ℕ). record (core s) { load = k }) (omega arith)

  core-deliver :
      (k : FrameKind) (s : Session)
      → phase_of t.id s.tasks ≡ some (answered r)
      → core (deliver k t r s) ≡ unload (answered r) (core s)
  core-deliver exec s h = elim (Bool-cases (quiet t.window)) [
    | inl q ↦ rw q (core-finish_exec t r (answered r) s h)
    | inr q ↦ rw q (core-start_drain s h)
  ]
  core-deliver run_test s h = core-start_drain s h
  core-deliver commit s h = core-finish_boundary t r (answered r) commit commit_attempted s h
  core-deliver rollback s h = core-finish_boundary t r (answered r) rollback transaction_ended s h
  core-deliver close s h = core-drop_task t.id (answered r) s h

  pub core-resume :
      (s : Session)
      → phase_of t.id s.tasks ≡ some (answered r)
      → core (resume t r s) ≡ unload (answered r) (freed (core s))
  unfolding resume
  core-resume s h =
      core-deliver t.kind (leave t.id s) (rw tasks-leave h)
      ∙ ap (unload (answered r)) (core-leave t.id s)

-- A command that reached its ceiling no longer counts for its caller, and is the abandoned one.
pub core-abandon :
    (t : Task) (s : Session)
    → phase_of t.id s.tasks ≡ some expired
    → core (abandon t s) ≡ record (unload expired (core s)) { abandoned = some t.id }
unfolding abandon core
core-abandon t s h =
    let u : Session = record s { abandoned_id = some t.id; abandoned_kind = some t.account } in
    elim (Bool-cases (has_pid s.hello)) [
      | inl e ↦ rw e (
          core-set_phase t.id expired signalling u h
          ∙ ap (λ (k : ℕ). record (core u) { load = k }) (omega arith))
      | inr e ↦ rw e (core-time_out t.id expired t.kind u h)
    ]

resume_failed-core :
    (k : FrameKind) (n : ℕ) (s : Session)
    → phase_of n (leave n s).tasks ≡ some failed
    → core (resume_failed k n s) ≡ unload failed (freed (core s))
unfolding resume_failed end_run
resume_failed-core run_test n s h =
    core-unwind n failed run_test _ h ∙ ap (unload failed) (core-end_run _ ∙ core-leave n s)
resume_failed-core k n s h = core-unwind n failed k _ h ∙ ap (unload failed) (core-leave n s)

pub core-resume_failed :
    (t : Task) (s : Session)
    → phase_of t.id s.tasks ≡ some failed
    → core (resume_failed t.kind t.id s) ≡ unload failed (freed (core s))
core-resume_failed t s h = resume_failed-core t.kind t.id s (rw tasks-leave h)
