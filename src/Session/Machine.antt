-- ===== src/Session/Machine.antt =====
-- The state machine of `Session` in odoo_sheller/session.py: its fields, and the parts of its
-- handlers that run without an `await` in between. A handler that awaits is one function for each
-- stretch between two awaits, and `tasks` holds the callers that are suspended in `_request`.
use odoo_sheller.Session.Rights.{Rights}
use odoo_sheller.Common.{
  ℕ, String, Bool, true, false, not, ◌&&◌, Option, none, some, List, [], ◌∷◌, ◌++◌, if◌then◌else◌,
  ◌==◌, string_eq, nat_eq, is_some,
}
use odoo_sheller.Session.Records.{
  State, starting, ready, busy, closed, dead, FrameKind, close, Account, Failure, Reply, Entry,
  Event, state_event, progress_event,
}
use odoo_sheller.Session.Window.{Window}

pub record Hello : Type 0 where
  pub odoo : Option String
  pub db : Option String
  pub pid : Option ℕ

-- `_hello_waiter`
pub data Starter : Type 0 where
  awaiting refused : Starter
  arrived : Hello → Starter

-- How far a caller of `_request` has come: its future is pending, has a result, has an exception
-- or was cancelled by the ceiling; then it sends SIGINT, or waits out the drain of stderr.
pub data Phase : Type 0 where
  waiting failed expired signalling : Phase
  answered draining : Reply → Phase

pub record Task : Type 0 where
  pub id : ℕ
  pub kind : FrameKind
  pub account : Account
  pub phase : Phase
  pub window : Option Window

-- `_run`
pub record Run : Type 0 where
  pub window : Window
  pub discarded_pending : Bool
  pub params : Option String
  pub browser : Bool
  pub js_skip : Option String

-- `_test_progress`
pub record Progress : Type 0 where
  pub spec : String
  pub current : Option String
  pub started : ℕ
  pub failures : ℕ
  pub errors : ℕ
  pub skipped : ℕ

pub record Session : Type 0 where
  pub rights : Rights
  pub open rights use *
  pub state : State
  pub closing : Bool
  pub next_id : ℕ
  -- `_waiter` by the id of its request, which is `_waiter_id`
  pub waiter : Option ℕ
  pub abandoned_id : Option ℕ
  pub abandoned_kind : Option Account
  pub activity : Option FrameKind
  pub starter : Starter
  pub hello : Option Hello
  pub autoclose : Bool
  pub ran_test : Bool
  pub autoclose_announced : Bool
  pub run : Option Run
  pub test_failed : List Failure
  pub test_module : Option String
  pub progress : Option Progress
  pub tasks : List Task
  -- the frames written to the process, newest last
  pub sent : List (ℕ × FrameKind)
  -- a late answer to a test run that the reader holds while stderr drains
  pub held : Option Reply

-- Why a frame is not accepted.
pub data Trouble : Type 0 where
  session_dead session_not_ready session_busy : Trouble

abbrev state_rank : State → ℕ
state_rank starting = 0
state_rank ready = 1
state_rank busy = 2
state_rank closed = 3
state_rank dead = 4

abbrev pub same_state : State → State → Bool
same_state a b = state_rank a == state_rank b

-- `state in (CLOSED, DEAD)`
abbrev pub is_ended : State → Bool
is_ended closed = true
is_ended dead = true
is_ended _ = false

abbrev pub is_close : FrameKind → Bool
is_close close = true
is_close _ = false

-- `self.journal.write`
unfoldable pub log : Entry → Session → Session
log e s = record s { rights = record s.rights { journal = s.journal ++ e ∷ [] } }

-- `_emit`
unfoldable pub emit : Event → Session → Session
emit e s = record s { rights = record s.rights { events = s.events ++ e ∷ [] } }

unfoldable pub set_pending : ℕ → ℕ → Session → Session
set_pending n k s = record s {
  rights = record s.rights { pending_commands = n; inherited_pending = k };
}

-- `_end_run`; the run's collector goes with the run
unfoldable pub end_run : Session → Session
end_run s = record s { run = none; test_module = none }

-- The part of `_set_state` for a session that is no longer busy.
unfoldable pub stop_activity : Session → Session
stop_activity s =
    let t : Session = record s { activity = none } in
    if is_some s.progress then emit progress_event (record t { progress = none }) else t

-- `_set_state`
unfoldable pub set_state : State → Session → Session
set_state st s =
    if same_state st s.state
    then s
    else let s1 : Session =
        if is_ended st
        then end_run (record s { abandoned_id = none; abandoned_kind = none })
        else s in
      let s2 : Session = if same_state st busy then s1 else stop_activity s1 in
      emit (state_event st s2.activity) (record s2 { state = st })

-- `_ensure_acceptable`
unfoldable pub ensure_acceptable : FrameKind → Session → Option Trouble
ensure_acceptable k s =
    if same_state s.state dead
    then some session_dead
    else if same_state s.state closed
    then some session_dead
    else if s.closing && not (is_close k)
    then some session_dead
    else if same_state s.state starting
    then some session_not_ready
    else if same_state s.state busy && not (is_close k)
    then some session_busy
    else none

-- The phase of the task with this id.
abbrev pub phase_of : ℕ → List Task → Option Phase
phase_of n [] = none
phase_of n (t ∷ ts) = if t.id == n then some t.phase else phase_of n ts

abbrev pub find_task : ℕ → List Task → Option Task
find_task n [] = none
find_task n (t ∷ ts) = if t.id == n then some t else find_task n ts

unfoldable pub set_phase : ℕ → Phase → List Task → List Task
set_phase n p [] = []
set_phase n p (t ∷ ts) = if t.id == n then record t { phase = p } ∷ ts else t ∷ set_phase n p ts

unfoldable pub remove_task : ℕ → List Task → List Task
remove_task n [] = []
remove_task n (t ∷ ts) = if t.id == n then ts else t ∷ remove_task n ts

-- `waiter is not None and not waiter.done()`
abbrev pub is_waiting : Option Phase → Bool
is_waiting (some waiting) = true
is_waiting _ = false

unfoldable pub has_waiter : Session → Bool
has_waiter s = elim s.waiter [ none ↦ false | some w ↦ is_waiting (phase_of w s.tasks) ]

-- The waiting caller's future is set.
unfoldable pub resolve_waiter : Phase → Session → Session
resolve_waiter p s = elim s.waiter [
  | none ↦ s
  | some w ↦ if has_waiter s then record s { tasks = set_phase w p s.tasks } else s
]

-- `_request`, up to the await: `_ensure_acceptable` has passed, and `n` is the frame's id.
unfoldable pub request : FrameKind → ℕ → Account → Option Window → Session → Session
request k n account window s =
    let task : Task = record {
      id = n;
      kind = k;
      account = account;
      phase = waiting;
      window = window;
    } in
    set_state busy (record s {
      waiter = some n;
      activity = if same_state s.state busy then s.activity else some k;
      tasks = s.tasks ++ task ∷ [];
      sent = s.sent ++ (n, k) ∷ [];
    })
