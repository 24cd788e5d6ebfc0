-- ===== src/Session/Steps/Accepting.antt =====
-- When the commands of odoo_sheller/session.py are taken.
use odoo_sheller.Common.{
  String, ◌≡◌, ◌↔◌, ◌⊎◌, inl, inr, Bool, true, false, not, ◌&&◌, Option, none, some, arith, is_some,
}
use odoo_sheller.Session.Records.{starting, ready, busy, FrameKind}
use odoo_sheller.Session.Rights.{may_commit}
use odoo_sheller.Session.Machine.{
  Session, session_dead, session_not_ready, session_busy, same_state, is_ended, is_close,
  ensure_acceptable,
}
use odoo_sheller.Session.Commands.{Raised, execute, params_refused, run_test_start, boundary_start}

-- A command other than `close` is accepted exactly by a session that is ready and not closing; it
-- is refused as dead, as not ready and as busy exactly in the cases named here.
pub ensure_acceptable_cases :
    (k : FrameKind) (s : Session)
    → is_close k ≡ false
    → ((ensure_acceptable k s ≡ none) ↔ ((same_state s.state ready ≡ true) × (s.closing ≡ false)))
      × ((ensure_acceptable k s ≡ some session_dead)
          ↔ ((is_ended s.state ≡ true) ⊎ (s.closing ≡ true)))
      × ((ensure_acceptable k s ≡ some session_not_ready)
          ↔ ((same_state s.state starting ≡ true) × (s.closing ≡ false)))
      × ((ensure_acceptable k s ≡ some session_busy)
          ↔ ((same_state s.state busy ≡ true) × (s.closing ≡ false)))
unfolding ensure_acceptable
ensure_acceptable_cases k s e = ground arith

abbrev pub taken : Raised ⊎ Session → Bool
taken (inl e) = false
taken (inr t) = true

-- An exec and a boundary are taken exactly by a session that is ready and not closing; a commit
-- needs the right as well, and a test run that its parameters suit the Odoo that answered.
pub commands_taken :
    (s : Session) (text : String) (read_only : Bool) (m : String) (c f p : Option String)
    → let free = same_state s.state ready && not s.closing in
      (taken (execute text read_only s) ≡ free)
      × (taken (boundary_start false s) ≡ free)
      × (taken (boundary_start true s) ≡ (free && not (is_some (may_commit s.rights))))
      × (taken (run_test_start m c f p s) ≡ (free && not (params_refused p s.hello)))
unfolding execute boundary_start run_test_start ensure_acceptable
commands_taken s text read_only m c f p = (ground arith, ground arith, ground arith, ground arith)
