-- ===== src/Session/Ledger/Spending.antt =====
-- When a commit or a rollback in odoo_sheller/session.py takes the production grant back.
use odoo_sheller.Common.{
  ℕ, String, ◌≡◌, refl, sym, ap, ◌∙◌, inl, inr, Bool, true, false, not, ◌&&◌, Option, none, some,
  arith, if◌then◌else◌, Bool-cases, Option-cases, is_some,
}
use odoo_sheller.Session.Records.{
  PolicyReason, commit_attempted, transaction_ended, ready, busy, FrameKind, exec, commit, rollback,
  run_test, close, Account, read, of_frame, Reply,
}
use odoo_sheller.Session.Rights.{
  Refusal, commit_forbidden, commit_not_allowed, is_human, spend_production_grant, may_commit,
}
use odoo_sheller.Session.Machine.{
  Phase, signalling, answered, Task, Session, same_state, log, set_phase, has_waiter,
  resolve_waiter,
}
use odoo_sheller.Session.Commands.{frame_of, boundary_start}
use odoo_sheller.Session.Core.{Core, core, at_state, freed, core-settle_abandoned}
use odoo_sheller.Session.Ledger.{Ledger, ledger, ledger-drop_task, booked}
use odoo_sheller.Session.Ledger.Booking.{
  ledger-settle_abandoned, ledger-settle_unknown, ledger-finish_boundary,
}
use odoo_sheller.Session.Steps.Accepting.{taken, commands_taken}
use odoo_sheller.Transport.{is_remote, on_production}
use odoo_sheller.Session.Reader.{settle_abandoned, same_id, on_result}
use odoo_sheller.Session.Endings.{
  leave, leave_abandoned, drop_task, spend, unwind, resume_failed, finish_boundary, deliver, resume,
  time_out, has_pid, abandon,
}

abbrev guarded : Ledger → Bool
guarded l = on_production l.target && l.allow_commit

ledger-spend : (reason : PolicyReason) (s : Session) → guarded (ledger (spend reason s)) ≡ false
unfolding ledger spend spend_production_grant
ledger-spend reason s = ground arith

booked-guarded : (a : Account) (e : Option String) (l : Ledger) → guarded (booked a e l) ≡ guarded l
unfolding booked
booked-guarded read e l = refl
booked-guarded (of_frame exec) e l = refl
booked-guarded (of_frame commit) e l = ground arith
booked-guarded (of_frame rollback) e l = ground arith
booked-guarded (of_frame run_test) e l = refl
booked-guarded (of_frame close) e l = refl

unwind-guarded :
    (is_commit : Bool) (n : ℕ) (s : Session)
    → guarded (ledger (unwind (frame_of is_commit) n s)) ≡ false
unfolding unwind
unwind-guarded true n s = ap guarded (ledger-drop_task n _) ∙ ledger-spend commit_attempted s
unwind-guarded false n s = ap guarded (ledger-drop_task n _) ∙ ledger-spend transaction_ended s

finish_boundary-guarded :
    (is_commit : Bool) (reason : PolicyReason) (n : ℕ) (r : Reply) (s : Session)
    → guarded (ledger (finish_boundary (frame_of is_commit) reason n r s)) ≡ false
finish_boundary-guarded is_commit reason n r s =
    ap guarded (ledger-finish_boundary is_commit reason n r s)
    ∙ booked-guarded _ r.error _
    ∙ ledger-spend reason s

deliver-guarded :
    (is_commit : Bool) (t : Task) (r : Reply) (s : Session)
    → guarded (ledger (deliver (frame_of is_commit) t r s)) ≡ false
deliver-guarded true t r s = finish_boundary-guarded true commit_attempted t.id r s
deliver-guarded false t r s = finish_boundary-guarded false transaction_ended t.id r s

resume_failed-guarded :
    (is_commit : Bool) (n : ℕ) (s : Session)
    → guarded (ledger (resume_failed (frame_of is_commit) n s)) ≡ false
unfolding resume_failed
resume_failed-guarded true n s = unwind-guarded true n _
resume_failed-guarded false n s = unwind-guarded false n _

time_out-guarded :
    (is_commit : Bool) (n : ℕ) (s : Session)
    → guarded (ledger (time_out (frame_of is_commit) n s)) ≡ false
unfolding time_out
time_out-guarded is_commit n s = unwind-guarded is_commit n _

-- However a commit or a rollback ends, with an answer, an error, the end of the session or at its
-- ceiling: the session on production does not hold the right to commit any more.
pub boundary_spends :
    (t : Task) (is_commit : Bool) (s : Session) (r : Reply)
    → t.kind ≡ frame_of is_commit
    → let held = λ (u : Session). on_production u.target && u.allow_commit in
      (held (resume t r s) ≡ false)
      × (held (resume_failed t.kind t.id s) ≡ false)
      × (held (time_out t.kind t.id s) ≡ false)
unfolding ledger resume
boundary_spends t is_commit s r h = (
  ap (λ (k : FrameKind). guarded (ledger (deliver k t r (leave t.id s)))) h
      ∙ deliver-guarded is_commit t r _,
  ap (λ (k : FrameKind). guarded (ledger (resume_failed k t.id s))) h
      ∙ resume_failed-guarded is_commit t.id s,
  ap (λ (k : FrameKind). guarded (ledger (time_out k t.id s))) h
      ∙ time_out-guarded is_commit t.id s,
)

-- The books without the pending work.
abbrev rights_of : Ledger → Ledger
rights_of l = record l { pending = 0; inherited = 0 }

booked-rights_of :
    (a : Account) (e : Option String) (l : Ledger) → rights_of (booked a e l) ≡ rights_of l
unfolding booked
booked-rights_of read e l = refl
booked-rights_of (of_frame exec) e l = refl
booked-rights_of (of_frame commit) none l = refl
booked-rights_of (of_frame commit) (some x) l = refl
booked-rights_of (of_frame rollback) none l = refl
booked-rights_of (of_frame rollback) (some x) l = refl
booked-rights_of (of_frame run_test) e l = refl
booked-rights_of (of_frame close) e l = refl

-- The right to commit is a matter of the books alone.
abbrev may_commit_by : Ledger → Option Refusal
may_commit_by l =
    if on_production l.target && not (is_human l.owner.kind)
    then some commit_forbidden
    else if is_human l.owner.kind && not (is_remote l.target)
    then none
    else if l.allow_commit
    then none
    else some commit_not_allowed

may_commit-rights_of : (s : Session) → may_commit s.rights ≡ may_commit_by (rights_of (ledger s))
unfolding may_commit ledger
may_commit-rights_of s = refl

same_right :
    (s t : Session)
    → rights_of (ledger s) ≡ rights_of (ledger t)
    → may_commit s.rights ≡ may_commit t.rights
same_right s t h = may_commit-rights_of s ∙ ap may_commit_by h ∙ sym (may_commit-rights_of t)

-- Whether a session that is idle in these terms takes a commit.
takes_commit :
    (s : Session)
    → taken (boundary_start true s)
      ≡ (same_state s.state ready && not s.closing && not (is_some (may_commit s.rights)))
takes_commit s = (commands_taken s "" false "" none none none).2

settled_free :
    (r : Reply) (w : Session)
    → same_state w.state busy ≡ true
    → w.closing ≡ false
    → (same_state (settle_abandoned r w).state ready ≡ true)
      × ((settle_abandoned r w).closing ≡ false)
unfolding core
settled_free r w b c =
    let h = core-settle_abandoned r w in
    let state = ap (λ (c : Core). c.state) h in
    let closing = ap (λ (c : Core). c.closing) h in
    unfold freed at_state in (rw state (ground arith), rw closing (ground arith))

settled_right :
    (a : Account) (r : Reply) (w : Session)
    → w.abandoned_kind ≡ some a
    → may_commit (settle_abandoned r w).rights ≡ may_commit w.rights
settled_right a r w h =
    same_right (settle_abandoned r w) w
      (ap rights_of (ledger-settle_abandoned a r w h) ∙ booked-rights_of a r.error (ledger w))

-- A commit that reaches its ceiling while the shell's pid is known gives the grant back only once
-- SIGINT was sent. An answer that is read in between, in a session that is busy, not closing and
-- in no test run, makes the session ready with the grant still held, and it takes a second commit
-- on that one grant.
pub second_commit :
    (t : Task) (r : Reply) (s : Session)
    → same_state s.state busy ≡ true
    → s.closing ≡ false
    → s.run ≡ none
    → has_pid s.hello ≡ true
    → t.account ≡ of_frame commit
    → r.id ≡ some t.id
    → may_commit s.rights ≡ none
    → taken (boundary_start true (on_result r (abandon t s))) ≡ true
unfolding abandon on_result
second_commit t r s b c n p a i m =
    let w : Session = record s {
      abandoned_id = some t.id;
      abandoned_kind = some t.account;
      tasks = set_phase t.id signalling s.tasks;
    } in
    let (idle, unclosed) = settled_free r w b c in
    let right = settled_right t.account r w refl in
    let taken_then : taken (boundary_start true (settle_abandoned r w)) ≡ true =
      takes_commit (settle_abandoned r w) ∙ rw (idle, unclosed, right, m) refl in
    ground (arith, taken_then)

settle-rights_of :
    (r : Reply) (s : Session) → rights_of (ledger (settle_abandoned r s)) ≡ rights_of (ledger s)
settle-rights_of r s = elim (Option-cases s.abandoned_kind) [
  | inr (a, e) ↦
      ap rights_of (ledger-settle_abandoned a r s e) ∙ booked-rights_of a r.error (ledger s)
  | inl e ↦ ap rights_of (ledger-settle_unknown r s e)
]

resolve_waiter-rights : (p : Phase) (s : Session) → ledger (resolve_waiter p s) ≡ ledger s
unfolding resolve_waiter ledger
resolve_waiter-rights p s = ground arith

-- What the process writes never changes the right to commit.
on_result-rights_of :
    (r : Reply) (s : Session) → rights_of (ledger (on_result r s)) ≡ rights_of (ledger s)
unfolding on_result
on_result-rights_of r s = elim (Bool-cases (same_id r.id s.abandoned_id)) [
  | inl a ↦ elim (Bool-cases (is_some s.run)) [
    | inl b ↦ rw (a, b) (unfold ledger in refl)
    | inr b ↦ rw (a, b) (settle-rights_of r s)
  ]
  | inr a ↦ elim (Bool-cases (has_waiter s && same_id r.id s.waiter)) [
    | inl b ↦ rw (a, b) (ap rights_of (resolve_waiter-rights (answered r) s))
    | inr b ↦ rw (a, b)
  ]
]

time_out-may_commit :
    (n : ℕ) (s : Session)
    → on_production s.target ≡ true
    → is_remote s.target ≡ true
    → is_some (may_commit (time_out commit n s).rights) ≡ true
unfolding time_out leave_abandoned log unwind drop_task spend spend_production_grant may_commit
time_out-may_commit n s p q = ground arith

-- Once SIGINT was sent for a commit on a remote production target, whatever answer is read next
-- leaves no right behind: a second commit is refused until a human grants it anew.
pub second_commit_refused :
    (t : Task) (r : Reply) (s : Session)
    → t.kind ≡ commit
    → on_production s.target ≡ true
    → is_remote s.target ≡ true
    → taken (boundary_start true (on_result r (time_out t.kind t.id s))) ≡ false
second_commit_refused t r s k p q =
    let right =
      same_right (on_result r (time_out commit t.id s)) (time_out commit t.id s)
        (on_result-rights_of r (time_out commit t.id s)) in
    let refused = time_out-may_commit t.id s p q in
    let over : taken (boundary_start true (on_result r (time_out commit t.id s))) ≡ false =
      takes_commit _ ∙ rw right (ground (arith, refused)) in
    ap (λ (k : FrameKind). taken (boundary_start true (on_result r (time_out k t.id s)))) k ∙ over
