-- ===== src/Tests/Sessions.antt =====
-- Runs of the sessions of odoo_sheller/session.py.
use odoo_sheller.Session.Rights.Guard
use odoo_sheller.Session.Rights.Keys
use odoo_sheller.Session.Steps.Orderly
use odoo_sheller.Common.{◌+◌, ◌≤◌, String, ◌≡◌, refl, inl, inr, true, false, none, some}
use odoo_sheller.Session.Records.{agent, Owner, ready, exec, of_frame, Reply}
use odoo_sheller.Session.Rights.{Rights, human_owner, init, transfer_owner, set_allow_commit}
use odoo_sheller.Session.Machine.{
  Hello, answered, Task, Session, log, emit, end_run, stop_activity, set_state, ensure_acceptable,
  set_phase, has_waiter, resolve_waiter, request,
}
use odoo_sheller.Session.Commands.{exec_stderr_limit, take_id, execute}
use odoo_sheller.Session.Core.{load}
use odoo_sheller.Session.Steps.{
  fresh_session, call_exec, read_hello, read_result, say_started, go_on, Reach, opened, next,
}
use odoo_sheller.Session.Steps.Invariant.{count}
use odoo_sheller.Session.Window.{empty_window}
use odoo_sheller.Transport.{docker, odoosh, Target, target_name, on_production}
use odoo_sheller.Session.Reader.{on_result, on_hello}
use odoo_sheller.Session.Endings.{resume, started}

abbrev pub production_build : Target
production_build = record {
  kind = odoosh;
  container = none;
  database = some "shop";
  odoo_bin = none;
  build = some "shop-main-1";
  host = some "shop.odoo.com";
  stage = some "production";
  label = none;
  access = none;
  launch = none;
  card_id = none;
}

abbrev pub local_container : Target
local_container = record {
  kind = docker;
  container = some "odoo";
  database = some "dev";
  odoo_bin = none;
  build = none;
  host = none;
  stage = none;
  label = none;
  access = none;
  launch = none;
  card_id = none;
}

abbrev pub robot : Owner
robot = record { kind = agent; label = some "robot" }

abbrev pub on_build : Rights
on_build = init production_build none none false "key-1"

abbrev pub in_container : Rights
in_container = init local_container (some robot) none false "key-1"

abbrev pub granted_build : Rights
granted_build = elim (set_allow_commit true (some "shop-main-1") on_build) [
  | inr r ↦ r
  | inl e ↦ on_build
]

abbrev pub handed_over : Rights
handed_over = transfer_owner robot false "key-2" granted_build

-- granted to a human, then handed to an agent
two_steps : Guard.Reach handed_over
unfolding init set_allow_commit target_name on_production
two_steps =
    Guard.next
      (Guard.next (Guard.opened production_build none none false "key-1")
        (Guard.policy on_build granted_build true (some "shop-main-1") refl))
      (Guard.transfer granted_build robot false "key-2" refl)

Reach-IsSound_example : Guard.IsSound handed_over
Reach-IsSound_example = Guard.Reach-IsSound two_steps

abbrev pub in_human : Rights
in_human = init local_container none none false "key-1"

later : Keys.Later granted_build handed_over
unfolding init set_allow_commit target_name on_production
later = Keys.after Keys.now (Guard.transfer granted_build robot false "key-2" refl)

abbrev pub back_to_human : Rights
back_to_human = transfer_owner human_owner false "key-2" in_container

taken_back : Keys.Later in_container back_to_human
unfolding init
taken_back = Keys.after Keys.now (Guard.transfer in_container human_owner false "key-2" refl)

abbrev pub old_key : String
old_key = "key-1"

abbrev pub new_key : String
new_key = "key-2"

abbrev pub no_key : String
no_key = ""

abbrev pub greeting : Hello
greeting = record { odoo = some "17.0"; db = some "dev"; pid = some 42 }

abbrev pub starting_session : Session
starting_session = fresh_session in_container false

abbrev pub ready_session : Session
ready_session = started greeting (on_hello greeting starting_session)

abbrev pub busy_session : Session
busy_session = elim (execute "1" false ready_session) [ inr t ↦ t | inl e ↦ ready_session ]

abbrev pub answer : Reply
answer = record { id = some 1; error = none; success = none; stderr = none; report = none }

abbrev pub answered_task : Task
answered_task = record {
  id = 1;
  kind = exec;
  account = of_frame exec;
  phase = answered answer;
  window = some (empty_window exec_stderr_limit);
}

abbrev pub answered_session : Session
answered_session = on_result answer busy_session

abbrev pub idle_session : Session
idle_session = resume answered_task answer answered_session

-- opened, greeted, one command sent, answered and returned
one_command : Reach idle_session
unfolding init started on_hello execute on_result ensure_acceptable take_id request set_state log
    emit stop_activity end_run has_waiter resolve_waiter set_phase empty_window
one_command =
    next
      (next
        (next
          (next (next (opened in_container false) (read_hello greeting refl))
            (say_started greeting refl refl))
          (call_exec "1" false refl))
        (read_result answer refl refl))
      (go_on answered_task answer refl refl)

ready_is_idle_example :
    (idle_session.state ≡ ready
      → (load idle_session.tasks ≡ 0) × (idle_session.abandoned_id ≡ none))
    × (idle_session.closing ≡ false → load idle_session.tasks + count idle_session.abandoned_id ≤ 1)
ready_is_idle_example = Orderly.ready_is_idle one_command
