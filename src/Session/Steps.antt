-- ===== src/Session/Steps.antt =====
-- A session of odoo_sheller/session.py over time: whatever its clients call, its process writes and
-- its loop schedules next, in any order.
pub mod Invariant
pub mod Calls
pub mod Process
pub mod Tasks
pub mod Orderly
pub mod Accepting
pub mod Ended
use odoo_sheller.Session.Rights.Guard
use odoo_sheller.Common.{ℕ, String, ◌≡◌, inr, Bool, true, false, Option, none, some, [], is_some}
use odoo_sheller.Session.Records.{starting, Reply}
use odoo_sheller.Session.Rights.{Rights}
use odoo_sheller.Session.Machine.{
  Hello, awaiting, arrived, Phase, failed, expired, signalling, answered, draining, Task, Session,
  phase_of, find_task, set_phase,
}
use odoo_sheller.Session.Core.{load_phase}
use odoo_sheller.Session.Commands.{execute, run_test_start, boundary_start}
use odoo_sheller.Session.Reader.{on_result, drained, on_bye, on_hello, overrun_frame, die}
use odoo_sheller.Session.Endings.{
  resume_failed, finish_exec, finish_run, resume, time_out, abandon, started, close_start,
  close_request, kill_start, kill_finish, close_finish,
}

abbrev pub fresh_session : Rights → Bool → Session
fresh_session r autoclose = record {
  rights = r;
  state = starting;
  closing = false;
  next_id = 0;
  waiter = none;
  abandoned_id = none;
  abandoned_kind = none;
  activity = none;
  starter = awaiting;
  hello = none;
  autoclose = autoclose;
  ran_test = false;
  autoclose_announced = false;
  run = none;
  test_failed = [];
  test_module = none;
  progress = none;
  tasks = [];
  sent = [];
  held = none;
}

-- The next stretch that runs without an await. A task is named by the id of its frame.
pub data Step : Session → Session → Type 0 where
  -- the clients
  call_exec :
      {s t : Session} (text : String) (read_only : Bool)
      → execute text read_only s ≡ inr t
      → Step s t
  call_run_test :
      {s t : Session} (m : String) (c f p : Option String)
      → run_test_start m c f p s ≡ inr t
      → Step s t
  call_boundary : {s t : Session} (is_commit : Bool) → boundary_start is_commit s ≡ inr t → Step s t
  call_close : {s : Session} → Step s (close_start s)
  call_kill : {s : Session} → Step s (kill_start s)
  change_rights :
      {s : Session} (r : Rights) → Guard.Step s.rights r → Step s (record s { rights = r })
  -- the process; every `result` frame carries the id of the frame that it answers
  read_hello : {s : Session} (h : Hello) → s.held ≡ none → Step s (on_hello h s)
  read_result :
      {s : Session} (r : Reply) → is_some r.id ≡ true → s.held ≡ none → Step s (on_result r s)
  read_bye : {s : Session} (r : Reply) → s.held ≡ none → Step s (on_bye r s)
  read_overrun : {s : Session} → s.held ≡ none → Step s (overrun_frame s)
  reader_drained : {s : Session} → Step s (drained s)
  process_ended : {s : Session} (reason : String) → Step s (die reason s)
  -- the loop
  say_started :
      {s : Session} (h : Hello) → s.starter ≡ arrived h → s.hello ≡ none → Step s (started h s)
  -- the ceiling is reached: before the answer, or after it and before its caller goes on
  reach_ceiling :
      {s : Session} (n : ℕ) (p : Phase)
      → phase_of n s.tasks ≡ some p
      → load_phase p ≡ 1
      → Step s (record s { tasks = set_phase n expired s.tasks })
  go_on :
      {s : Session} (t : Task) (r : Reply)
      → find_task t.id s.tasks ≡ some t
      → t.phase ≡ answered r
      → Step s (resume t r s)
  go_on_failed :
      {s : Session} (t : Task)
      → find_task t.id s.tasks ≡ some t
      → t.phase ≡ failed
      → Step s (resume_failed t.kind t.id s)
  go_on_expired :
      {s : Session} (t : Task)
      → find_task t.id s.tasks ≡ some t
      → t.phase ≡ expired
      → Step s (abandon t s)
  go_on_signalled :
      {s : Session} (t : Task)
      → find_task t.id s.tasks ≡ some t
      → t.phase ≡ signalling
      → Step s (time_out t.kind t.id s)
  end_exec :
      {s : Session} (t : Task) (r : Reply)
      → find_task t.id s.tasks ≡ some t
      → t.phase ≡ draining r
      → Step s (finish_exec t r s)
  end_run_test :
      {s : Session} (t : Task) (r : Reply)
      → find_task t.id s.tasks ≡ some t
      → t.phase ≡ draining r
      → Step s (finish_run t.id r s)
  ask_to_leave : {s : Session} → s.closing ≡ true → Step s (close_request s)
  end_close : {s : Session} → s.closing ≡ true → Step s (close_finish s)
  end_kill : {s : Session} (was_dead : Bool) → s.closing ≡ true → Step s (kill_finish was_dead s)

pub data Reach : Session → Type 0 where
  opened : (r : Rights) (autoclose : Bool) → Reach (fresh_session r autoclose)
  next : {s t : Session} → Reach s → Step s t → Reach t
