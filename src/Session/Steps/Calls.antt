-- ===== src/Session/Steps/Calls.antt =====
-- What the clients of odoo_sheller/session.py call keeps the invariant.
use odoo_sheller.Common.{
  ℕ, ◌+◌, String, ◌≡◌, refl, inl, inr, Bool, true, false, Option, none, some, arith, if◌then◌else◌,
  Bool-cases, Option-cases,
}
use odoo_sheller.Session.Records.{
  starting, ready, busy, FrameKind, exec, commit, rollback, run_test, close, Account, of_frame,
  exec_sent,
}
use odoo_sheller.Session.Machine.{
  Session, Trouble, same_state, is_ended, is_close, log, emit, set_pending, ensure_acceptable,
  request,
}
use odoo_sheller.Session.Window.{Window, empty_window}
use odoo_sheller.Session.Core.{Core, core, at_state}
use odoo_sheller.Session.Core.Commands.{core-request}
use odoo_sheller.Session.Commands.{
  exec_stderr_limit, take_id, exec_account, execute, params_refused, prepare_run, run_test_start,
  boundary_start,
}
use odoo_sheller.Session.Steps.Invariant.{IsOrderly, at_state-IsOrderly}
use odoo_sheller.Session.Endings.{ask, close_request}

pub accepted :
    (k : FrameKind) (s : Session)
    → is_close k ≡ false
    → ensure_acceptable k s ≡ none
    → (same_state s.state ready ≡ true) × (s.closing ≡ false)
unfolding ensure_acceptable
accepted k s e h = ground arith

pub request-IsOrderly :
    (k : FrameKind) (n : ℕ) (a : Account) (w : Option Window) (s : Session)
    → IsOrderly (core s)
    → same_state s.state ready ≡ true
    → IsOrderly (core (request k n a w s))
unfolding core
request-IsOrderly k n a w s h e = rw core-request (at_state-IsOrderly (core s) n h e)

pub execute-IsOrderly :
    (text : String) (read_only : Bool) (s t : Session)
    → IsOrderly (core s)
    → execute text read_only s ≡ inr t
    → IsOrderly (core t)
unfolding execute
execute-IsOrderly text read_only s t h e = elim (Option-cases (ensure_acceptable exec s)) [
  | inl a ↦
      let u = log (exec_sent (take_id s).next_id text s.owner read_only) (take_id s) in
      let n = (take_id s).next_id in
      let w = empty_window exec_stderr_limit in
      let got : request exec n (exec_account read_only) (some w) u ≡ t = ground arith in
      rw (← got) (
        request-IsOrderly exec n (exec_account read_only) (some w) u (unfold log take_id core in h)
          (unfold log take_id in (accepted exec s refl a).0))
  | inr (x, a) ↦ absurd (ground arith)
]

pub run_test_start-IsOrderly :
    (m : String) (c f p : Option String) (s t : Session)
    → IsOrderly (core s)
    → run_test_start m c f p s ≡ inr t
    → IsOrderly (core t)
unfolding run_test_start
run_test_start-IsOrderly m c f p s t h e = elim (Option-cases (ensure_acceptable run_test s)) [
  | inl a ↦ elim (Bool-cases (params_refused p s.hello)) [
    | inl b ↦ absurd (ground arith)
    | inr b ↦
        let u = prepare_run m c f p s in
        let got : request run_test u.next_id (of_frame run_test) none u ≡ t = ground arith in
        let same : core u ≡ core s = unfold prepare_run log emit take_id set_pending core in refl in
        rw (← got) (
          request-IsOrderly run_test u.next_id (of_frame run_test) none u (rw same h)
            (unfold prepare_run log emit take_id set_pending in (accepted run_test s refl a).0))
  ]
  | inr (x, a) ↦ absurd (ground arith)
]

pub boundary_start-IsOrderly :
    (is_commit : Bool) (s t : Session)
    → IsOrderly (core s)
    → boundary_start is_commit s ≡ inr t
    → IsOrderly (core t)
unfolding boundary_start
boundary_start-IsOrderly is_commit s t h e =
    let k = if is_commit then commit else rollback in
    let n = (take_id s).next_id in
    let got : request k n (of_frame k) none (take_id s) ≡ t = ground arith in
    let free : ensure_acceptable k s ≡ none = ground arith in
    rw (← got) (
      request-IsOrderly k n (of_frame k) none (take_id s) (unfold take_id core in h)
        (unfold take_id in (accepted k s (ground arith) free).0))

pub busy-IsOrderly :
    (c : Core)
    → IsOrderly c
    → c.closing ≡ true
    → is_ended c.state ≡ false
    → same_state c.state starting ≡ false
    → IsOrderly (at_state busy (record c { load = c.load + 1 }))
unfolding at_state
busy-IsOrderly c h e f g = record {
  idle = ground (arith, h.idle);
  single = ground (arith, h.idle);
  early = ground (arith, h.early);
  named = λ r. ground (arith, h.named r);
}

pub ask-IsOrderly :
    (o : Option Trouble) (s : Session)
    → IsOrderly (core s)
    → s.closing ≡ true
    → ensure_acceptable close s ≡ o
    → IsOrderly (core (ask o s))
unfolding core
ask-IsOrderly (some x) s h e a = h
ask-IsOrderly none s h e a = rw core-request (
    busy-IsOrderly (core s) h (unfold core in e) (unfold core ensure_acceptable in ground arith)
      (unfold core ensure_acceptable in ground arith))

pub close_request-IsOrderly :
    (s : Session) → IsOrderly (core s) → s.closing ≡ true → IsOrderly (core (close_request s))
unfolding close_request
close_request-IsOrderly s h e =
    ask-IsOrderly (ensure_acceptable close s) (take_id s) (unfold take_id core in h)
      (unfold take_id in e) (unfold take_id ensure_acceptable in refl)
