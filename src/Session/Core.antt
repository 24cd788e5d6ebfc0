-- ===== src/Session/Core.antt =====
-- What the state machine of odoo_sheller/session.py turns on: the state, and how many commands the
-- process may still be working on. Each operation is shown to act on this view alone as its
-- counterpart on the view does; journal, events, rights and the test run do not matter here.
pub mod Commands
use odoo_sheller.Common.{
  ℕ, ◌+◌, ◌≡◌, refl, ap, ◌∙◌, inl, inr, Bool, true, not, ◌&&◌, Option, none, some, List, [], ◌∷◌,
  ◌++◌, arith, if◌then◌else◌, ◌==◌, string_eq, nat_eq, Bool-cases, Option-cases, is_some,
}
use odoo_sheller.Session.Records.{
  State, starting, ready, busy, exec, commit, rollback, Account, of_frame, Reply, Entry,
  abandoned_result, Event,
}
use odoo_sheller.Session.Machine.{
  Phase, waiting, failed, signalling, draining, Task, Session, same_state, is_ended, log, emit,
  set_pending, end_run, stop_activity, set_state, phase_of, find_task, set_phase, remove_task,
  is_waiting, has_waiter, resolve_waiter,
}
use odoo_sheller.Session.Reader.{
  maybe_autoclose, late_transaction_over, book_late, late_reply, free, settle_abandoned,
  fail_pending_waiters,
}

-- Whether a caller still counts on its command: its future is not set, or it has not gone on yet.
abbrev pub load_phase : Phase → ℕ
load_phase signalling = 0
load_phase (draining r) = 0
load_phase _ = 1

abbrev pub load : List Task → ℕ
load [] = 0
load (t ∷ ts) = load_phase t.phase + load ts

pub record Core : Type 0 where
  pub state : State
  pub closing : Bool
  pub load : ℕ
  pub abandoned : Option ℕ
  pub greeted : Bool
  pub held : Option Reply

unfoldable pub core : Session → Core
core s = record {
  state = s.state;
  closing = s.closing;
  load = load s.tasks;
  abandoned = s.abandoned_id;
  greeted = is_some s.hello;
  held = s.held;
}

module _ (n : ℕ) (p q : Phase) where
  pub load-set_phase :
      (ts : List Task)
      → phase_of n ts ≡ some p
      → load (set_phase n q ts) + load_phase p ≡ load ts + load_phase q
  unfolding set_phase
  load-set_phase [] h = cc
  load-set_phase (t ∷ ts) h = elim (Bool-cases (t.id == n)) [
    | inl e ↦ rw e (let same : t.phase ≡ p = ground arith in rw same (omega arith))
    | inr e ↦ rw e (omega (arith, load-set_phase ts (rw e at h)))
  ]

module _ (n : ℕ) (p : Phase) where
  pub load-remove_task :
      (ts : List Task) → phase_of n ts ≡ some p → load (remove_task n ts) + load_phase p ≡ load ts
  unfolding remove_task
  load-remove_task [] h = cc
  load-remove_task (t ∷ ts) h = elim (Bool-cases (t.id == n)) [
    | inl e ↦ rw e (let same : t.phase ≡ p = ground arith in rw same (omega arith))
    | inr e ↦ rw e (omega (arith, load-remove_task ts (rw e at h)))
  ]

pub load-append : (ts : List Task) (t : Task) → load (ts ++ t ∷ []) ≡ load ts + load_phase t.phase
load-append [] t = omega arith
load-append (u ∷ ts) t = omega (arith, load-append ts t)

pub phase_of-find_task :
    (n : ℕ) (ts : List Task) (t : Task) → find_task n ts ≡ some t → phase_of n ts ≡ some t.phase
phase_of-find_task n [] t h = cc
phase_of-find_task n (u ∷ ts) t h = ground (arith, phase_of-find_task n ts t)

-- `_set_state` on the view
unfoldable pub at_state : State → Core → Core
at_state st c =
    if same_state st c.state
    then c
    else record c { state = st; abandoned = if is_ended st then none else c.abandoned }

-- `free` on the view
unfoldable pub freed : Core → Core
unfolding at_state
freed c = if same_state c.state busy && not c.closing then at_state ready c else c

pub core-log : (e : Entry) (s : Session) → core (log e s) ≡ core s
unfolding core log
core-log e s = refl

pub core-emit : (e : Event) (s : Session) → core (emit e s) ≡ core s
unfolding core emit
core-emit e s = refl

pub core-set_pending : (n k : ℕ) (s : Session) → core (set_pending n k s) ≡ core s
unfolding core set_pending
core-set_pending n k s = refl

pub core-end_run : (s : Session) → core (end_run s) ≡ core s
unfolding core end_run
core-end_run s = refl

pub core-maybe_autoclose : (s : Session) → core (maybe_autoclose s) ≡ core s
unfolding core maybe_autoclose emit
core-maybe_autoclose s = ground arith

pub core-set_state : (st : State) (s : Session) → core (set_state st s) ≡ at_state st (core s)
unfolding core set_state at_state emit end_run stop_activity
core-set_state starting s = ground arith
core-set_state st s = ground arith

pub core-free : (s : Session) → core (free s) ≡ freed (core s)
unfolding free freed
core-free s = elim (Bool-cases (same_state s.state busy && not s.closing)) [
  | inl e ↦ unfold core in rw e (core-set_state ready s)
  | inr e ↦ unfold core in rw e
]

pub core-late_transaction_over :
    (r : Reply) (s : Session) → core (late_transaction_over r s) ≡ core s
core-late_transaction_over r s = elim (Option-cases r.error) [
  | inl e ↦ rw e (core-set_pending 0 0 s)
  | inr (x, e) ↦ rw e
]

pub core-book_late :
    (k : Option Account) (r : Reply) (s : Session) → core (book_late k r s) ≡ core s
unfolding book_late
core-book_late (some (of_frame exec)) r s = core-set_pending _ _ s
core-book_late (some (of_frame commit)) r s = core-late_transaction_over r _ ∙ core-log _ s
core-book_late (some (of_frame rollback)) r s = core-late_transaction_over r _ ∙ core-log _ s
core-book_late _ r s = refl

core-late_reply :
    (k : Option Account) (r : Reply) (s : Session) → core (late_reply k r s).1 ≡ core s
unfolding late_reply core end_run
core-late_reply k r s = ground arith

-- A late answer makes the session free, as far as it is not closing.
pub core-settle_abandoned :
    (r : Reply) (s : Session)
    → core (settle_abandoned r s) ≡ freed (record (core s) { abandoned = none })
unfolding settle_abandoned core
core-settle_abandoned r s =
    let t : Session = record s { abandoned_id = none; abandoned_kind = none } in
    let k = s.abandoned_kind in
    let u = late_reply k r t in
    core-maybe_autoclose _
    ∙ core-free _
    ∙ ap freed
        (core-book_late k u.0 _ ∙ core-log (abandoned_result u.0) u.1 ∙ core-late_reply k r t)

waiting_of : (o : Option Phase) → is_waiting o ≡ true → o ≡ some waiting
waiting_of (some waiting) h = refl
waiting_of (some failed) h = cc
waiting_of _ h = cc

-- Setting a future does not let its caller go on yet.
pub core-resolve_waiter :
    (p : Phase) (s : Session) → load_phase p ≡ 1 → core (resolve_waiter p s) ≡ core s
unfolding resolve_waiter core has_waiter
core-resolve_waiter p s h = elim (Option-cases s.waiter) [
  | inl e ↦ rw e
  | inr (w, e) ↦ elim (Bool-cases (is_waiting (phase_of w s.tasks))) [
    | inl f ↦
        let kept = load-set_phase w waiting p s.tasks (waiting_of _ f) in
        rw (e, f) (ap (λ (k : ℕ). record (core s) { load = k }) (omega (arith, kept)))
    | inr f ↦ rw (e, f)
  ]
]

pub core-fail_pending_waiters : (s : Session) → core (fail_pending_waiters s) ≡ core s
unfolding fail_pending_waiters core
core-fail_pending_waiters s = core-resolve_waiter failed s refl
