-- ===== src/Mcp/Runs.antt =====
-- `os_run_test` and `os_test_result` of odoo_sheller/mcp.py. Times are in milliseconds.
pub mod Waiting
use odoo_sheller.Common.{
  ℕ, zero, suc, ◌+◌, code, String, Bool, true, false, not, ◌&&◌, ◌||◌, Option, none, some, List, [],
  ◌∷◌, ltb, leb, if◌then◌else◌, ◌==◌, string_eq, nat_eq, is_some,
}
use odoo_sheller.Mcp.{Reply, refused, got, text, Server, hold, session_path, call}
use odoo_sheller.Mcp.Tools.{Opened}
use odoo_sheller.Mcp.Results.{RunFrame, RunAnswer, run_answer}
use odoo_sheller.Mcp.Results.Past.{
  PastRun, Entry, ran, executed, other, empty_run, HistoryRun, history_run,
}

-- `MCP_CALL_BUDGET` where the environment sets none; elsewhere the budget is an argument, which may
-- be any time that is not negative.
abbrev pub default_call_budget : ℕ
default_call_budget = 40000

abbrev pub run_start_grace : ℕ
run_start_grace = 5000

abbrev pub session_start_ceiling : ℕ
session_start_ceiling = 90000

abbrev pub max_test_timeout : ℕ
max_test_timeout = 3600000

abbrev pub test_result_poll : ℕ
test_result_poll = 2000

-- `_spec_form`
pub data SpecForm : Type 0 where
  of_module of_class of_method : SpecForm

abbrev pub count_char : ℕ → String → ℕ
count_char k String.[] = 0
count_char k (String.◌∷◌ c s) = (if code c == k then 1 else 0) + count_char k s

unfoldable pub spec_form : String → SpecForm
spec_form test =
    if count_char b'.' test == 0
    then of_module
    else if count_char b'.' test == 1
    then of_class
    else of_method

-- `DEFAULT_TEST_TIMEOUTS`
abbrev pub default_timeout : SpecForm → ℕ
default_timeout of_method = 30000
default_timeout of_class = 300000
default_timeout of_module = 1800000

abbrev pub is_given : Option String → Bool
is_given none = false
is_given (some s) = not (s == "")

-- The ceiling of the run.
unfoldable pub run_timeout : String → Option String → Option ℕ → ℕ
unfolding spec_form
run_timeout test params (some t) = t
run_timeout test params none =
    let usual = default_timeout (spec_form test) in
    if is_given params && ltb usual (default_timeout of_class)
    then default_timeout of_class
    else usual

-- The arguments of `os_run_test`.
pub record RunArgs : Type 0 where
  pub test : String
  pub container : Option String
  pub database : Option String
  pub odoo_bin : Option String
  pub timeout : Option ℕ
  pub session_id : Option String
  pub params : Option String

-- What is refused before anything is sent.
unfoldable pub run_refused : RunArgs → Option String
unfolding run_timeout
run_refused a =
    let t = run_timeout a.test a.params a.timeout in
    if is_given a.session_id && (is_given a.container || is_given a.database || is_given a.odoo_bin)
    then some "ambiguous_target"
    else if not (ltb 0 t && leb t max_test_timeout)
    then some "invalid_timeout"
    else none

-- How long the call that opens and the call that runs wait; `left` is what is left of the budget.
abbrev pub open_wait : ℕ → ℕ
open_wait call_budget =
    if leb (session_start_ceiling + 10000) call_budget
    then session_start_ceiling + 10000
    else call_budget

unfoldable pub run_leg : ℕ → ℕ → ℕ
run_leg timeout left =
    let wanted = if leb (timeout + 2000) left then timeout + 2000 else left in
    if leb wanted run_start_grace then run_start_grace else wanted

-- What a call of `os_run_test` comes to. `stranded` is an open that was not answered in time; `ours`
-- says whether the session was opened for the run.
pub data RunOutcome : Type 0 where
  refusal : String → RunOutcome
  stranded : RunOutcome
  still_running : (ours : Bool) → String → RunOutcome
  answered : String → RunAnswer → RunOutcome

-- `_run_test_in`; `stdout` is absent from a refusal only.
unfoldable pub run_test_in : Bool → String → RunArgs → Reply RunFrame → Server → Server × RunOutcome
unfolding call
run_test_in ours id a reply s = (
  call "POST" (session_path id "/run_test") (some id) s,
  elim reply [
    | refused why ↦ if why == "request_timed_out" then still_running ours id else refusal why
    | text words ↦ answered id (run_answer a.test a.params empty_run)
    | got r ↦ answered id (run_answer a.test a.params r)
  ],
)

-- `os_run_test` where no session is given: the one that it opens, and the run in it.
unfoldable pub fresh_run : RunArgs → Reply Opened → Reply RunFrame → Server → Server × RunOutcome
unfolding run_test_in call
fresh_run a open_reply run_reply s =
    let at = call "POST" "/api/sessions" none s in
    elim open_reply [
      | refused why ↦ (at, if why == "request_timed_out" then stranded else refusal why)
      | text words ↦ (at, refusal "KeyError")
      | got o ↦
          run_test_in true o.id a run_reply (record at { held = hold o.id o.write_key s.held })
    ]

-- `os_run_test`: the answers to the call that opens a session and to the one that runs.
unfoldable pub os_run_test : RunArgs → Reply Opened → Reply RunFrame → Server → Server × RunOutcome
unfolding run_refused run_test_in fresh_run
os_run_test a open_reply run_reply s =
    let fresh = fresh_run a open_reply run_reply s in
    elim (run_refused a) [
      | some why ↦ (s, refusal why)
      | none ↦ elim a.session_id [
        | none ↦ fresh
        | some id ↦ if id == "" then fresh else run_test_in false id a run_reply s
      ]
    ]

-- The feed of a session, as `os_test_result` reads it.
pub record Feed : Type 0 where
  pub entries : List Entry
  pub gone : Bool

abbrev pub runs_of : List Entry → List PastRun
runs_of [] = []
runs_of (ran e ∷ es) = e ∷ runs_of es
runs_of (executed e ∷ es) = runs_of es
runs_of (Entry.other kind ∷ es) = runs_of es

abbrev pub last_of : List PastRun → Option PastRun
last_of [] = none
last_of (e ∷ []) = some e
last_of (e ∷ f ∷ es) = last_of (f ∷ es)

-- The last run of a feed, if its result is there.
unfoldable pub settled : Feed → Option PastRun
settled f = elim (last_of (runs_of f.entries)) [
  | none ↦ none
  | some e ↦ if is_some e.result then some e else none
]

pub data Waited : Type 0 where
  failed : String → Waited
  done : HistoryRun → Waited
  lost going : Waited

-- The daemon and the clock: what a request for the history answers, a sleep of `TEST_RESULT_POLL`,
-- and the time of the event loop.
pub record Surroundings (D : Type 0) : Type 0 where
  pub history : D → D × Reply Feed
  pub sleep : D → D
  pub time : D → ℕ

-- What one look makes of the feed, or nothing if the loop goes on.
unfoldable pub look : Reply Feed → Bool → Option Waited
unfolding settled
look (refused why) late = some (failed why)
look (text words) late = if late then some going else none
look (got f) late = elim (settled f) [
  | some e ↦ some (done (history_run e))
  | none ↦ if f.gone then some lost else if late then some going else none
]

module _ {D : Type 0} (w : Surroundings D) where
  -- The loop of `os_test_result`, on fuel.
  unfoldable pub wait_for : ℕ → ℕ → D → Option Waited
  unfolding look
  wait_for zero deadline d = none
  wait_for (suc f) deadline d =
      let (after, reply) = w.history d in
      elim (look reply (leb deadline (w.time after))) [
        | some outcome ↦ some outcome
        | none ↦ wait_for f deadline (w.sleep after)
      ]

  unfoldable pub os_test_result : ℕ → ℕ → D → Option Waited
  unfolding wait_for
  os_test_result call_budget fuel d = wait_for fuel (w.time d + call_budget) d
