-- ===== src/Journal/Feed.antt =====
-- `feed_from_records` of odoo_sheller/journal.py. An entry of the feed is one object that the
-- list and the dictionary of pending commands share: the dictionary holds its place in the list.
use odoo_sheller.Common.{
  ℕ, zero, suc, ◌-◌, code, String, ◌≡◌, ◌↔◌, Bool, true, false, Option, none, some, List, [], ◌∷◌,
  ◌++◌, arith, ltb, if◌then◌else◌, Eq, ◌==◌, string_eq, nat_eq, length, lookup, drop,
}
use odoo_sheller.Journal.{
  Actor, Answer, Command, exec, run_test, Body, sent, result, timeout, boundary, stderr,
  owner_changed, policy_changed, Line,
}

pub data Status : Type 0 where
  running error done : Status

pub data Outcome : Type 0 where
  answered : Answer → Outcome
  -- `_TIMEOUT_ERROR`
  timeout_error : Outcome

pub record Cell : Type 0 where
  pub id : Option ℕ
  pub ordinal : ℕ
  pub ts : Option String
  pub command : Command
  pub status : Status
  pub outcome : Option Outcome
  pub actor : Option Actor
  pub abandoned : Bool
  pub timed_out : Bool

pub data FeedEntry : Type 0 where
  cell : Cell → FeedEntry
  ended : (commits : Bool) → Option Actor → FeedEntry
  handed : Option Actor → Option Actor → FeedEntry
  policy : Option Bool → FeedEntry

abbrev pub id_beq : Option ℕ → Option ℕ → Bool
id_beq none none = true
id_beq (some a) (some b) = a == b
id_beq (some a) none = false
id_beq none (some b) = false

pub id_beq_iff : (a b : Option ℕ) → (id_beq a b ≡ true) ↔ (a ≡ b)
id_beq_iff none none = ground arith
id_beq_iff none (some b) = ground arith
id_beq_iff (some a) none = ground arith
id_beq_iff (some a) (some b) = ground arith

instance abbrev pub id_eq : Eq (Option ℕ)
id_eq = record { equals_iff = id_beq_iff; equals = id_beq }

-- The locals of `feed_from_records`.
pub record Feed : Type 0 where
  pub history : List String
  pub entries : List FeedEntry
  pub logs : List (Option String × String)
  pub pending : List (Option ℕ × ℕ)
  pub commands : ℕ

abbrev pub empty_feed : Feed
empty_feed = record { history = []; entries = []; logs = []; pending = []; commands = 0 }

abbrev pub fresh_cell : Option String → Option ℕ → ℕ → Command → Option Actor → Cell
fresh_cell ts id n c by = record {
  id = id;
  ordinal = n;
  ts = ts;
  command = c;
  status = running;
  outcome = none;
  actor = by;
  abandoned = false;
  timed_out = false;
}

-- `result.get("error")`
unfoldable pub outcome_status : Answer → Status
outcome_status a = elim a.error [ none ↦ done | some p ↦ error ]

unfoldable pub take_result : Bool → Answer → Cell → Cell
take_result late a c = record c {
  outcome = some (answered a);
  status = outcome_status a;
  abandoned = if late then true else c.abandoned;
}

unfoldable pub take_timeout : Cell → Cell
take_timeout c = elim c.status [
  | running ↦ record c { timed_out = true; status = error; outcome = some timeout_error }
  | _ ↦ record c { timed_out = true }
]

unfoldable pub in_cell : (Cell → Cell) → FeedEntry → FeedEntry
in_cell f (cell c) = cell (f c)
in_cell f (ended commits by) = ended commits by
in_cell f (handed was now) = handed was now
in_cell f (policy p) = policy p

-- The object at a place of the list is changed.
unfoldable pub change_at : ℕ → (Cell → Cell) → List FeedEntry → List FeedEntry
change_at n f [] = []
change_at zero f (e ∷ es) = in_cell f e ∷ es
change_at (suc n) f (e ∷ es) = e ∷ change_at n f es

-- `pending.get(record.get("id"))`, and the entry changed if there is one
unfoldable pub change_pending : Option ℕ → (Cell → Cell) → Feed → Feed
change_pending id f d = elim (lookup id d.pending) [
  | none ↦ d
  | some n ↦ record d { entries = change_at n f d.entries }
]

-- Only code joins the history.
unfoldable pub recalled : Command → List String
recalled (exec code) = code ∷ []
recalled (run_test spec) = []

unfoldable pub append_entry : FeedEntry → Feed → Feed
append_entry e d = record d { entries = d.entries ++ e ∷ [] }

-- One turn of the loop.
unfoldable pub feed_step : Bool → Option String → Body → Feed → Feed
feed_step include_logs ts (stderr line) d =
    if include_logs then record d { logs = d.logs ++ (ts, line) ∷ [] } else d
feed_step include_logs ts (sent id c by) d = record {
  history = d.history ++ recalled c;
  entries = d.entries ++ cell (fresh_cell ts id (suc d.commands) c by) ∷ [];
  logs = d.logs;
  pending = (id, length d.entries) ∷ d.pending;
  commands = suc d.commands;
}
feed_step include_logs ts (result late id a) d = change_pending id (take_result late a) d
feed_step include_logs ts (timeout id seconds) d = change_pending id take_timeout d
feed_step include_logs ts (boundary commits failed by) d =
    if failed then d else append_entry (ended commits by) d
feed_step include_logs ts (owner_changed was now pending) d = append_entry (handed was now) d
feed_step include_logs ts (policy_changed p) d = append_entry (policy p) d
feed_step include_logs ts _ d = d

unfoldable pub feed_loop : Bool → List Line → Feed → Feed
feed_loop include_logs [] d = d
feed_loop include_logs (l ∷ ls) d = feed_loop include_logs ls (feed_step include_logs l.ts l.body d)

abbrev pub feed_log_tail : ℕ
feed_log_tail = 2000

-- `logs[-log_tail:] if log_tail else logs`, and whether some were left out
unfoldable pub log_tail_of :
    Option ℕ → List (Option String × String) → List (Option String × String) × Bool
log_tail_of none logs = (logs, false)
log_tail_of (some zero) logs = (logs, false)
log_tail_of (some n) logs = (drop (length logs - n) logs, ltb n (length logs))

-- What is returned: the history, the entries, and the logs if they are asked for.
unfoldable pub feed_from_records :
    List Line
    → Bool
    → Option ℕ
    → List String × List FeedEntry × Option (List (Option String × String) × Bool)
feed_from_records ls include_logs log_tail =
    let d = feed_loop include_logs ls empty_feed in
    (d.history, d.entries, (if include_logs then some (log_tail_of log_tail d.logs) else none))
