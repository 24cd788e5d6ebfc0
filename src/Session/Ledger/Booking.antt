-- ===== src/Session/Ledger/Booking.antt =====
-- A late answer in odoo_sheller/session.py is booked like one in time.
use odoo_sheller.Common.{
  ℕ, ◌+◌, String, ◌≡◌, refl, sym, ap, ◌∙◌, Bool, true, false, Option, none, some, arith,
  if◌then◌else◌, is_some,
}
use odoo_sheller.Session.Records.{
  PolicyReason, exec, commit, rollback, run_test, close, Account, read, of_frame, Reply,
  abandoned_result,
}
use odoo_sheller.Session.Machine.{Task, Session, log, set_pending}
use odoo_sheller.Session.Commands.{exec_account, frame_of}
use odoo_sheller.Session.Ledger.{
  Ledger, ledger, ledger-log, ledger-free, ledger-maybe_autoclose, ledger-drop_task,
  ledger-late_reply, booked,
}
use odoo_sheller.Session.Rights.{spend_production_grant}
use odoo_sheller.Session.Reader.{book_late, late_reply, settle_abandoned}
use odoo_sheller.Session.Endings.{spend, counted, finish_exec, transaction_over, finish_boundary}

ledger-book_late :
    (a : Account) (r : Reply) (s : Session)
    → ledger (book_late (some a) r s) ≡ booked a r.error (ledger s)
unfolding book_late booked ledger set_pending log
ledger-book_late (of_frame exec) r s = refl
ledger-book_late (of_frame commit) r s = ground arith
ledger-book_late (of_frame rollback) r s = ground arith
ledger-book_late read r s = refl
ledger-book_late (of_frame run_test) r s = refl
ledger-book_late (of_frame close) r s = refl

-- Only the answer to a test run is changed before it is booked, and a run leaves no work pending.
booked-late_reply :
    (a : Account) (r : Reply) (s : Session) (l : Ledger)
    → booked a (late_reply (some a) r s).0.error l ≡ booked a r.error l
unfolding booked late_reply
booked-late_reply (of_frame exec) r s l = refl
booked-late_reply (of_frame commit) r s l = ground arith
booked-late_reply (of_frame rollback) r s l = ground arith
booked-late_reply read r s l = refl
booked-late_reply (of_frame run_test) r s l = refl
booked-late_reply (of_frame close) r s l = refl

-- What `_settle_abandoned` books.
pub ledger-settle_abandoned :
    (a : Account) (r : Reply) (s : Session)
    → s.abandoned_kind ≡ some a
    → ledger (settle_abandoned r s) ≡ booked a r.error (ledger s)
unfolding settle_abandoned ledger
ledger-settle_abandoned a r s h =
    let t : Session = record s { abandoned_id = none; abandoned_kind = none } in
    let u = late_reply (some a) r t in
    let kept : ledger t ≡ ledger s = unfold ledger in refl in
    rw h (
      ledger-maybe_autoclose _
      ∙ ledger-free _
      ∙ ledger-book_late a u.0 _
      ∙ ap (booked a u.0.error)
          (ledger-log (abandoned_result u.0) u.1 ∙ ledger-late_reply (some a) r t ∙ kept)
      ∙ booked-late_reply a r t (ledger s))

pub ledger-settle_unknown :
    (r : Reply) (s : Session) → s.abandoned_kind ≡ none → ledger (settle_abandoned r s) ≡ ledger s
unfolding settle_abandoned ledger
ledger-settle_unknown r s h =
    let t : Session = record s { abandoned_id = none; abandoned_kind = none } in
    let u = late_reply none r t in
    let kept : ledger t ≡ ledger s = unfold ledger in refl in
    rw h (
      ledger-maybe_autoclose _
      ∙ ledger-free _
      ∙ (unfold book_late in
          ledger-log (abandoned_result u.0) u.1 ∙ ledger-late_reply none r t ∙ kept))

ledger-counted :
    (read_only : Bool) (e : Option String) (s : Session)
    → ledger (counted (exec_account read_only) s) ≡ booked (exec_account read_only) e (ledger s)
unfolding booked ledger set_pending
ledger-counted true e s = refl
ledger-counted false e s = refl

ledger-finish_exec :
    (read_only : Bool) (t : Task) (r : Reply) (s : Session)
    → t.account ≡ exec_account read_only
    → ledger (finish_exec t r s) ≡ booked t.account r.error (ledger s)
unfolding finish_exec
ledger-finish_exec read_only t r s h = rw h (
    ledger-counted read_only r.error _
    ∙ ap (booked (exec_account read_only) r.error) (ledger-drop_task t.id _ ∙ ledger-log _ s))

ledger-transaction_over :
    (is_commit : Bool) (r : Reply) (s : Session)
    → ledger (transaction_over r s) ≡ booked (of_frame (frame_of is_commit)) r.error (ledger s)
unfolding booked ledger set_pending
ledger-transaction_over true r s = ground arith
ledger-transaction_over false r s = ground arith

pub ledger-finish_boundary :
    (is_commit : Bool) (reason : PolicyReason) (n : ℕ) (r : Reply) (s : Session)
    → ledger (finish_boundary (frame_of is_commit) reason n r s)
      ≡ booked (of_frame (frame_of is_commit)) r.error (ledger (spend reason s))
unfolding finish_boundary
ledger-finish_boundary is_commit reason n r s =
    ledger-drop_task n _
    ∙ ledger-transaction_over is_commit r _
    ∙ ap (booked (of_frame (frame_of is_commit)) r.error) (ledger-log _ (spend reason s))

-- What is booked, in numbers.
booked_exec :
    (read_only : Bool) (e : Option String) (l : Ledger)
    → let b = booked (exec_account read_only) e l in
      (b.pending ≡ (if read_only then l.pending else l.pending + 1)) × (b.inherited ≡ l.inherited)
unfolding booked
booked_exec true e l = (refl, refl)
booked_exec false e l = (refl, refl)

booked_boundary :
    (is_commit : Bool) (e : Option String) (l : Ledger)
    → let b = booked (of_frame (frame_of is_commit)) e l in
      (b.pending ≡ (if is_some e then l.pending else 0))
      × (b.inherited ≡ (if is_some e then l.inherited else 0))
unfolding booked
booked_boundary true none l = (refl, refl)
booked_boundary true (some x) l = (refl, refl)
booked_boundary false none l = (refl, refl)
booked_boundary false (some x) l = (refl, refl)

-- Spending the grant leaves the pending work as it is.
booked-spend :
    (is_commit : Bool) (e : Option String) (reason : PolicyReason) (s : Session)
    → let k = of_frame (frame_of is_commit) in
      ((booked k e (ledger s)).pending ≡ (booked k e (ledger (spend reason s))).pending)
      × ((booked k e (ledger s)).inherited ≡ (booked k e (ledger (spend reason s))).inherited)
unfolding booked ledger spend spend_production_grant
booked-spend true e reason s = ground arith
booked-spend false e reason s = ground arith

-- An exec that answers after its ceiling, and one in time, adds one to the pending work, or nothing if
-- its caller said that it only reads. A commit or rollback, late or in time, leaves neither pending
-- nor inherited work if its answer carries no error, and both as they were if it carries one. And
-- what the late answer leaves of them is what one in time leaves.
pub settle_abandoned-in_time :
    (t : Task) (r : Reply) (s : Session)
    → s.abandoned_kind ≡ some t.account
    → ((read_only : Bool)
        → t.account ≡ exec_account read_only
        → let more = if read_only then s.pending_commands else s.pending_commands + 1 in
          ((settle_abandoned r s).pending_commands ≡ more)
          × ((settle_abandoned r s).inherited_pending ≡ s.inherited_pending)
          × (ledger (settle_abandoned r s) ≡ ledger (finish_exec t r s)))
      × ((is_commit : Bool) (reason : PolicyReason)
          → t.account ≡ of_frame (frame_of is_commit)
          → let late = settle_abandoned r s in
            let timely = finish_boundary (frame_of is_commit) reason t.id r s in
            (timely.pending_commands ≡ (if is_some r.error then s.pending_commands else 0))
            × (timely.inherited_pending ≡ (if is_some r.error then s.inherited_pending else 0))
            × (late.pending_commands ≡ timely.pending_commands)
            × (late.inherited_pending ≡ timely.inherited_pending))
unfolding ledger
settle_abandoned-in_time t r s h = (
  λ read_only e.
      let late = ledger-settle_abandoned t.account r s h in
      let counts = booked_exec read_only r.error (ledger s) in
      (
        ap (λ (l : Ledger). l.pending) late ∙ rw e counts.0,
        ap (λ (l : Ledger). l.inherited) late ∙ rw e counts.1,
        late ∙ sym (ledger-finish_exec read_only t r s e),
      ),
  λ is_commit reason e.
      let late = ledger-settle_abandoned t.account r s h in
      let timely = ledger-finish_boundary is_commit reason t.id r s in
      let same = booked-spend is_commit r.error reason s in
      let cleared = booked_boundary is_commit r.error (ledger s) in
      (
        ap (λ (l : Ledger). l.pending) timely ∙ sym same.0 ∙ cleared.0,
        ap (λ (l : Ledger). l.inherited) timely ∙ sym same.1 ∙ cleared.1,
        ap (λ (l : Ledger). l.pending) late
            ∙ rw e same.0
            ∙ sym (ap (λ (l : Ledger). l.pending) timely),
        ap (λ (l : Ledger). l.inherited) late
            ∙ rw e same.1
            ∙ sym (ap (λ (l : Ledger). l.inherited) timely),
      ),
)
