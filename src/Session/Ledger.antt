-- ===== src/Session/Ledger.antt =====
-- The books of a session of odoo_sheller/session.py: its target, its owner, the right to commit, and
-- how many commands count as pending. The state and the tasks do not matter to them.
pub mod Booking
pub mod Spending
use odoo_sheller.Common.{
  ℕ, ◌+◌, String, ◌≡◌, refl, ◌∙◌, inl, inr, Bool, not, ◌&&◌, Option, none, arith, Bool-cases,
}
use odoo_sheller.Session.Records.{
  Owner, State, starting, ready, busy, exec, commit, rollback, Account, of_frame, Reply, Entry,
}
use odoo_sheller.Session.Machine.{Session, same_state, log, emit, end_run, stop_activity, set_state}
use odoo_sheller.Transport.{Target}
use odoo_sheller.Session.Reader.{maybe_autoclose, late_reply, free}
use odoo_sheller.Session.Endings.{leave, drop_task}

pub record Ledger : Type 0 where
  pub target : Target
  pub owner : Owner
  pub allow_commit : Bool
  pub pending : ℕ
  pub inherited : ℕ

unfoldable pub ledger : Session → Ledger
ledger s = record {
  target = s.target;
  owner = s.owner;
  allow_commit = s.allow_commit;
  pending = s.pending_commands;
  inherited = s.inherited_pending;
}

pub ledger-log : (e : Entry) (s : Session) → ledger (log e s) ≡ ledger s
unfolding ledger log
ledger-log e s = refl

pub ledger-set_state : (st : State) (s : Session) → ledger (set_state st s) ≡ ledger s
unfolding ledger set_state emit end_run stop_activity
ledger-set_state starting s = ground arith
ledger-set_state st s = ground arith

pub ledger-free : (s : Session) → ledger (free s) ≡ ledger s
unfolding free
ledger-free s = elim (Bool-cases (same_state s.state busy && not s.closing)) [
  | inl e ↦ rw e (ledger-set_state ready s)
  | inr e ↦ rw e
]

pub ledger-leave : (n : ℕ) (s : Session) → ledger (leave n s) ≡ ledger s
unfolding leave
ledger-leave n s = ledger-free _ ∙ (unfold ledger in refl)

pub ledger-maybe_autoclose : (s : Session) → ledger (maybe_autoclose s) ≡ ledger s
unfolding ledger maybe_autoclose emit
ledger-maybe_autoclose s = ground arith

pub ledger-drop_task : (n : ℕ) (s : Session) → ledger (drop_task n s) ≡ ledger s
unfolding ledger drop_task
ledger-drop_task n s = refl

pub ledger-late_reply :
    (k : Option Account) (r : Reply) (s : Session) → ledger (late_reply k r s).1 ≡ ledger s
unfolding late_reply ledger end_run
ledger-late_reply k r s = ground arith

-- What an answer to a command of this account leaves of the pending work.
unfoldable pub booked : Account → Option String → Ledger → Ledger
booked (of_frame exec) error l = record l { pending = l.pending + 1 }
booked (of_frame commit) none l = record l { pending = 0; inherited = 0 }
booked (of_frame rollback) none l = record l { pending = 0; inherited = 0 }
booked _ error l = l
