-- ===== src/Session/Records.antt =====
-- What a session of odoo_sheller/session.py reads from the pipe, writes to its journal and
-- announces. A JSON object is a record of the keys that the session itself looks at.
use odoo_sheller.Common.{ℕ, String, Bool, Option, List}

-- The `kind` of an owner: the two that the program tells apart, or what else a caller wrote.
pub data OwnerKind : Type 0 where
  human agent : OwnerKind
  other : Option String → OwnerKind

pub record Owner : Type 0 where
  pub kind : OwnerKind
  pub label : Option String

-- `commit_grant`: where the right came from.
pub data Grant : Type 0 where
  container session : Grant

pub data PolicyReason : Type 0 where
  switch_on switch_off commit_attempted transaction_ended : PolicyReason

-- `SessionState`
pub data State : Type 0 where
  starting ready busy closed dead : State

-- The `t` of a frame that the daemon writes.
pub data FrameKind : Type 0 where
  exec commit rollback run_test close : FrameKind

-- The `account` of `_request`: `read`, or the frame's own type.
pub data Account : Type 0 where
  read : Account
  of_frame : FrameKind → Account

-- One failed test, as a spec to run again.
pub record Failure : Type 0 where
  pub test : String
  pub is_error : Bool
  pub params : Option String

-- What `_run_result` adds to the answer of a test run.
pub record Report : Type 0 where
  pub failed : List Failure
  pub discarded_pending : Bool
  -- the reason, if a browser suite was asked for and Odoo skipped it
  pub skipped : Option String

-- A `result` frame. `error` is absent where it is null or missing.
pub record Reply : Type 0 where
  pub id : Option ℕ
  pub error : Option String
  pub success : Option Bool
  -- the lines logged meanwhile, and whether some were dropped
  pub stderr : Option (List String × Bool)
  pub report : Option Report

-- The journal.
pub data Entry : Type 0 where
  session_open : Owner → Bool → Option Grant → Entry
  session_close : Bool → Entry
  session_died : String → Entry
  exec_sent : ℕ → String → Owner → Bool → Entry
  run_sent : ℕ → String → Owner → Entry
  result : Reply → Entry
  abandoned_result : Reply → Entry
  timeout : ℕ → Entry
  boundary : FrameKind → Option ℕ → Option String → Owner → Bool → Entry
  interrupt : Owner → Entry
  stderr_line : String → Entry
  owner_changed : Owner → Owner → ℕ → Entry
  policy_changed : Bool → Option PolicyReason → Option String → Entry

-- What `_emit` hands to the registry.
pub data Event : Type 0 where
  state_event : State → Option FrameKind → Event
  owner_event : Owner → Event
  policy_event : Bool → Option Grant → Event
  stderr_event : String → Event
  progress_event : Event
  autoclose_event : Event
