-- ===== src/Journal.antt =====
-- odoo_sheller/journal.py: what a journal's lines say, and what a listing says of a journal.
-- A JSON object is a record of the keys that the readers look at; a key that is absent, `null`
-- or empty is `none`.
pub mod Feed
pub mod Following
pub mod Markdown
mod Header
pub mod Text
pub mod Numbers
pub mod Files
pub mod Listing
use odoo_sheller.Common.{
  ℕ, suc, String, Bool, true, false, not, ◌&&◌, ◌||◌, Option, none, some, List, [], ◌∷◌, ◌++◌,
  if◌then◌else◌,
}

-- Who: an owner as a line has it.
pub record Actor : Type 0 where
  pub kind : Option String
  pub label : Option String

-- `session_open`
pub record Opening : Type 0 where
  pub owner : Option Actor
  pub allow_commit : Option Bool
  pub container : Option String
  pub database : Option String
  pub odoo_bin : Option String
  pub odoo : Option String
  pub python : Option String
  pub pid : Option ℕ
  pub target_kind : Option String
  pub host : Option String

-- An error: an object, or whatever else stands there.
pub data Problem : Type 0 where
  raised : Option String → Option String → Option String → Problem
  plain : String → Problem

pub record Tests : Type 0 where
  pub tests_run : Option ℕ
  pub failures : Option ℕ
  pub errors : Option ℕ
  pub skipped : Option ℕ
  pub success : Bool

pub record Hoot : Type 0 where
  pub passed : Option ℕ
  pub failed : Option ℕ
  pub failed_tests : List String
  pub unknown_filters : List String

pub record Answer : Type 0 where
  pub stdout : Option String
  pub value : Option String
  pub tests : Option Tests
  pub hoot : Option Hoot
  pub error : Option Problem
  -- the seconds, as `:.3f` prints them
  pub duration : String

pub record Spec : Type 0 where
  pub module_name : Option String
  pub test_class : Option String
  pub test_method : Option String
  pub params : Option String

-- What is sent to the shell under an id: code, or a test run.
pub data Command : Type 0 where
  exec : String → Command
  run_test : Spec → Command

-- The `kind` of a line with the keys of that kind.
pub data Body : Type 0 where
  session_open : Opening → Body
  session_close session_died : Body
  sent : Option ℕ → Command → Option Actor → Body
  -- a `result`, or an `abandoned_result`
  result : (late : Bool) → Option ℕ → Answer → Body
  timeout : Option ℕ → Option String → Body
  -- a `commit`, or a `rollback`; whether it has an `error`
  boundary : (commits : Bool) → (failed : Bool) → Option Actor → Body
  interrupt : Body
  stderr : String → Body
  owner_changed : Option Actor → Option Actor → ℕ → Body
  policy_changed : Option Bool → Body
  -- a kind that the readers do not know; every line has one, as `Journal.write` gives it
  other : Body

pub record Line : Type 0 where
  pub ts : Option String
  pub body : Body

-- The locals of `session_meta`.
pub record Summary : Type 0 where
  pub opened : Option (Option String × Opening)
  -- the closing line: its time, and whether the session died
  pub closed : Option (Option String × Bool)
  pub owners_seen : List Actor
  pub first_ts : Option String
  pub last_ts : Option String
  pub seen_any : Bool
  pub commands : ℕ
  pub committed : Bool

abbrev pub nothing_read : Summary
nothing_read = record {
  opened = none;
  closed = none;
  owners_seen = [];
  first_ts = none;
  last_ts = none;
  seen_any = false;
  commands = 0;
  committed = false;
}

abbrev pub one_or_none {ℓ} : {A : Type ℓ} → Option A → List A
one_or_none none = []
one_or_none (some a) = a ∷ []

abbrev pub note_times : Line → Summary → Summary
note_times l m = record m {
  first_ts = if m.seen_any then m.first_ts else l.ts;
  last_ts = l.ts;
  seen_any = true;
}

-- One turn of the loop of `session_meta`, behind the times.
unfoldable pub note_body : Option String → Body → Summary → Summary
note_body ts (session_open o) m = elim m.opened [
  | none ↦ record m { opened = some (ts, o); owners_seen = one_or_none o.owner ++ m.owners_seen }
  | some _ ↦ m
]
note_body ts session_close m = record m { closed = some (ts, false) }
note_body ts session_died m = record m { closed = some (ts, true) }
note_body ts (owner_changed was now pending) m = record m {
  owners_seen = m.owners_seen ++ one_or_none now;
}
note_body ts (sent id c by) m = record m { commands = suc m.commands }
note_body ts (boundary commits failed by) m = record m {
  committed = m.committed || (commits && not failed);
}
note_body ts _ m = m

unfoldable pub summarise : List Line → Summary → Summary
summarise [] m = m
summarise (l ∷ ls) m = summarise ls (note_body l.ts l.body (note_times l m))

abbrev pub last {ℓ} : {A : Type ℓ} → List A → Option A
last [] = none
last (x ∷ []) = some x
last (x ∷ y ∷ rest) = last (y ∷ rest)

-- What `session_meta` returns, the fields of the opening line apart.
pub record Meta : Type 0 where
  pub session_id : Option String
  pub owner : Option Actor
  pub owners_seen : List Actor
  pub opening : Option Opening
  pub opened_at : Option String
  pub closed_at : Option String
  pub ended_as : Option Bool
  pub duration : Option ℕ
  pub commands : ℕ
  pub committed : Bool

-- `elapsed` is the subtraction of two `datetime.fromisoformat`, `none` where one of them raises.
unfoldable pub duration_seconds :
    (String → String → Option ℕ) → Option String → Option String → Option ℕ
duration_seconds elapsed (some first) (some final) = elapsed first final
duration_seconds elapsed (some first) none = none
duration_seconds elapsed none final = none

unfoldable pub session_meta : (String → String → Option ℕ) → Option String → List Line → Meta
session_meta elapsed id ls =
    let m = summarise ls nothing_read in
    record {
      session_id = id;
      owner = last m.owners_seen;
      owners_seen = m.owners_seen;
      opening = elim m.opened [ none ↦ none | some (ts, o) ↦ some o ];
      opened_at = elim m.opened [ none ↦ none | some (ts, o) ↦ ts ];
      closed_at = elim m.closed [ none ↦ none | some (ts, died) ↦ ts ];
      ended_as = elim m.closed [ none ↦ none | some (ts, died) ↦ some died ];
      duration = duration_seconds elapsed m.first_ts m.last_ts;
      commands = m.commands;
      committed = m.committed;
    }

-- `next((r for r in records if r.get("kind") == "session_open"), None)`
unfoldable pub first_opening : List Line → Option Opening
first_opening [] = none
first_opening (l ∷ ls) =
    let later = first_opening ls in elim l.body [ session_open o ↦ some o | _ ↦ later ]

pub record Place : Type 0 where
  pub container : String
  pub database : String
  pub odoo_bin : Option String
  pub target_kind : String
  pub host : Option String

unfoldable pub target_from_records : List Line → Option Place
target_from_records ls = elim (first_opening ls) [
  | none ↦ none
  | some o ↦ elim o.container [
    | none ↦ none
    | some container ↦ elim o.database [
      | none ↦ none
      | some database ↦ some (record {
        container = container;
        database = database;
        odoo_bin = o.odoo_bin;
        target_kind = elim o.target_kind [ none ↦ "docker" | some k ↦ k ];
        host = o.host;
      })
    ]
  ]
]
