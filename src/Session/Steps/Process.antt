-- ===== src/Session/Steps/Process.antt =====
-- What the process of a session of odoo_sheller/session.py writes, and its end, keep the invariant.
use odoo_sheller.Common.{
  ℕ, String, ◌≡◌, refl, inl, inr, true, false, ◌&&◌, ◌||◌, Option, none, some, arith, Bool-cases,
  is_some,
}
use odoo_sheller.Session.Records.{ready, closed, dead, Reply, Entry}
use odoo_sheller.Session.Machine.{Hello, answered, Session, is_ended, log, set_state, has_waiter}
use odoo_sheller.Session.Core.{
  Core, core, at_state, core-log, core-maybe_autoclose, core-set_state, core-settle_abandoned,
  core-resolve_waiter, core-fail_pending_waiters,
}
use odoo_sheller.Session.Steps.Invariant.{IsOrderly, settled-IsOrderly, ended-IsOrderly}
use odoo_sheller.Session.Reader.{
  settle_abandoned, same_id, on_result, drain_with, drained, on_bye, on_hello, overrun_frame, die,
}
use odoo_sheller.Session.Endings.{started, close_start, kill_start}

pub same_id_some : (a b : Option ℕ) → is_some a ≡ true → same_id a b ≡ true → is_some b ≡ true
same_id_some a b h e = ground arith

pub settle-IsOrderly :
    (r : Reply) (s : Session)
    → IsOrderly (core s)
    → is_some s.abandoned_id ≡ true
    → IsOrderly (core (settle_abandoned r s))
settle-IsOrderly r s h e =
    rw core-settle_abandoned (settled-IsOrderly (core s) h (unfold core in e))

pub on_result-IsOrderly :
    (r : Reply) (s : Session)
    → IsOrderly (core s)
    → is_some r.id ≡ true
    → IsOrderly (core (on_result r s))
unfolding on_result
on_result-IsOrderly r s h e = elim (Bool-cases (same_id r.id s.abandoned_id)) [
  | inl a ↦ elim (Bool-cases (is_some s.run)) [
    | inl b ↦
        rw (a, b)
          (unfold core in
            record { idle = h.idle; single = h.single; early = h.early; named = λ q. ground arith })
    | inr b ↦ rw (a, b) (settle-IsOrderly r s h (same_id_some r.id s.abandoned_id e a))
  ]
  | inr a ↦ elim (Bool-cases (has_waiter s && same_id r.id s.waiter)) [
    | inl b ↦ rw (a, b, core-resolve_waiter (answered r) s refl) h
    | inr b ↦ rw (a, b) h
  ]
]

pub on_bye-IsOrderly :
    (r : Reply) (s : Session) → IsOrderly (core s) → IsOrderly (core (on_bye r s))
unfolding on_bye
on_bye-IsOrderly r s h = elim (Bool-cases (has_waiter s && same_id r.id s.waiter)) [
  | inl b ↦ rw (b, core-resolve_waiter (answered r) s refl) h
  | inr b ↦ rw b h
]

pub on_hello-IsOrderly :
    (g : Hello) (s : Session) → IsOrderly (core s) → IsOrderly (core (on_hello g s))
unfolding on_hello core
on_hello-IsOrderly g s h = h

pub overrun-IsOrderly : (s : Session) → IsOrderly (core s) → IsOrderly (core (overrun_frame s))
unfolding overrun_frame
overrun-IsOrderly s h = elim (Bool-cases (has_waiter s)) [
  | inl a ↦ rw (a, core-resolve_waiter _ s refl) h
  | inr a ↦ elim (Bool-cases (is_some s.abandoned_id)) [
    | inl b ↦ rw (a, b) (settle-IsOrderly _ s h b)
    | inr b ↦ rw (a, b) h
  ]
]

pub drain_with-IsOrderly :
    (o : Option Reply) (s : Session)
    → IsOrderly (core s)
    → ((r : Reply) → o ≡ some r → is_some r.id ≡ true)
    → IsOrderly (core (drain_with o s))
drain_with-IsOrderly none s h e = h
drain_with-IsOrderly (some r) s h e = elim (Bool-cases (same_id r.id s.abandoned_id)) [
  | inl b ↦ rw b (settle-IsOrderly r s h (same_id_some r.id s.abandoned_id (e r refl) b))
  | inr b ↦ rw b h
]

pub drained-IsOrderly : (s : Session) → IsOrderly (core s) → IsOrderly (core (drained s))
unfolding drained core
drained-IsOrderly s h =
    drain_with-IsOrderly s.held (record s { held = none })
      (record { idle = h.idle; single = h.single; early = h.early; named = λ q. ground arith })
      h.named

pub greeted-IsOrderly :
    (c : Core)
    → IsOrderly c
    → c.greeted ≡ false
    → is_ended c.state ≡ false
    → IsOrderly (at_state ready (record c { greeted = true }))
unfolding at_state
greeted-IsOrderly c h e f = record {
  idle = ground (arith, h.idle, h.early);
  single = ground (arith, h.single);
  early = ground arith;
  named = λ r. ground (arith, h.named r);
}

pub started-IsOrderly :
    (g : Hello) (s : Session) → IsOrderly (core s) → s.hello ≡ none → IsOrderly (core (started g s))
unfolding started core
started-IsOrderly g s h e = elim (Bool-cases (s.closing || is_ended s.state)) [
  | inl a ↦ rw a (record { idle = h.idle; single = h.single; early = λ f. cc; named = h.named })
  | inr a ↦
      rw (a, core-log, core-set_state) (greeted-IsOrderly (core s) h (ground arith) (ground arith))
]

pub die-IsOrderly :
    (reason : String) (s : Session) → IsOrderly (core s) → IsOrderly (core (die reason s))
unfolding die
die-IsOrderly reason s h = elim (Bool-cases (s.closing || is_ended s.state)) [
  | inl a ↦ rw a h
  | inr a ↦
      rw (a, core-fail_pending_waiters, core-maybe_autoclose, core-log, core-set_state)
        (ended-IsOrderly (core s) dead h refl)
]

pub closing-IsOrderly :
    (s : Session) → IsOrderly (core s) → IsOrderly (core (record s { closing = true }))
unfolding core
closing-IsOrderly s h = record { idle = h.idle; single = λ e. cc; early = h.early; named = h.named }

pub kill_start-IsOrderly : (s : Session) → IsOrderly (core s) → IsOrderly (core (kill_start s))
unfolding kill_start
kill_start-IsOrderly s h = rw core-fail_pending_waiters (closing-IsOrderly s h)

pub close_start-IsOrderly : (s : Session) → IsOrderly (core s) → IsOrderly (core (close_start s))
unfolding close_start
close_start-IsOrderly s h = elim (Bool-cases (is_ended s.state)) [
  | inl a ↦ rw a h
  | inr a ↦ rw (a, core-fail_pending_waiters) (closing-IsOrderly s h)
]

pub closed-IsOrderly :
    (e : Entry) (s : Session) → IsOrderly (core s) → IsOrderly (core (log e (set_state closed s)))
closed-IsOrderly e s h = rw (core-log, core-set_state) (ended-IsOrderly (core s) closed h refl)
