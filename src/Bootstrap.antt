-- ===== src/Bootstrap.antt =====
-- odoo_sheller/bootstrap.py: the loop inside Odoo's shell that answers the daemon's commands, and
-- where an interrupt may land in it. The interpreter, Odoo and what a command does in them are
-- operations on a world `W`; times are left out.
pub mod Loop
pub mod Serving
use odoo_sheller.Common.{
  ℕ, String, Bool, true, false, not, ◌&&◌, Option, none, some, [], ◌∷◌, leb, if◌then◌else◌, ◌==◌,
  string_eq, nat_eq, text_append, concat, text_length, take_text,
}

abbrev pub max_stdout : ℕ
max_stdout = 1000000

abbrev pub max_result : ℕ
max_result = 100000

-- An exception, as `_os_error` and `traceback.format_exc` show it; `shows` says whether they can, or
-- raise themselves, as `str` of it may.
pub record Error : Type 0 where
  pub shows : Bool
  pub kind : String
  pub message : String
  pub traceback : String

-- What raises, and what the code went on to have before it was raised.
pub record Outcome (W A : Type 0) : Type 0 where
  pub world : W
  pub error : Option Error
  pub value : Option A

-- What a run of tests reports, where the runner did not refuse.
pub record Report : Type 0 where
  pub tests_run : ℕ
  pub failures : ℕ
  pub errors : ℕ
  pub skipped : ℕ
  pub success : Bool

pub data Command : Type 0 where
  exec : String → Command
  run_test : String → String → Option String → Option String → Command
  commit rollback close : Command
  unknown : String → Command

-- Whether an interrupt arrives at each place where it matters: as the line is read, as the command's
-- last line has run, as its exception is caught, as an interrupt that escaped the command is caught
-- by the loop, and as the answer is written.
pub record Signals : Type 0 where
  pub reading : Bool
  pub ending : Bool
  pub catching : Bool
  pub settling : Bool
  pub sending : Bool

pub data Line : Type 0 where
  blank garbage : Line
  frame : Option ℕ → Command → Line

-- `_os_on_sigint`: whether it raises, by `_OS_LIVE`.
abbrev pub raises : Bool → Bool → Bool
raises live arrives = live && arrives

abbrev pub keyboard_interrupt : Error
keyboard_interrupt = record {
  shows = true;
  kind = "KeyboardInterrupt";
  message = "";
  traceback = "";
}

-- How the `try` that sets `_OS_LIVE` ends: the flag, and what was raised; or an interrupt escapes
-- it, with the flag still up; or the exception cannot be shown, and what that raises escapes.
pub data Caught : Type 0 where
  caught : Option Error → Caught
  escaped broken : Caught

-- The end of the span: a second interrupt in the handler is not caught there.
unfoldable pub span_end : Signals → Option Error → Caught
span_end s none =
    if raises true s.ending
    then (if raises true s.catching then escaped else caught (some keyboard_interrupt))
    else caught none
span_end s (some e) =
    if raises true s.catching then escaped else if e.shows then caught (some e) else broken

-- The frame that answers a command. `text` is `stdout` with whether it was cut, `value` the result.
pub data Kind : Type 0 where
  result bye : Kind

pub record Answer : Type 0 where
  pub t : Kind
  pub id : Option ℕ
  pub text : String × Bool
  pub value : Option String × Bool
  pub error : Option Error
  pub test : Option Report

-- `exec` of a cell with its tail's repr, a run of a tag over a module, and what the two ends of a
-- transaction call. What is printed meanwhile is `printed`, which starts anew with `capture`. `encodes`
-- says whether an answer can be written as UTF-8, which a text with half a surrogate pair cannot.
pub record Odoo (W : Type 0) : Type 0 where
  pub capture : W → W
  pub printed : W → String
  pub run_code : String → W → Outcome W String
  pub run_tests : String → String → W → Outcome W Report
  pub flush : W → Outcome W (Unit {0})
  pub invalidate : W → Outcome W (Unit {0})
  pub cr_commit : W → Outcome W (Unit {0})
  pub cr_rollback : W → Outcome W (Unit {0})
  pub encodes : Answer → Bool

-- What `_os_answer` comes to: an answer, an interrupt that escapes it, or another exception.
pub data Ending : Type 0 where
  answers : Answer → Ending
  interrupted failed : Ending

-- `_os_clip`
unfoldable pub clip : ℕ → String → String × Bool
clip limit t = if leb (text_length t) limit then (t, false) else (take_text limit t, true)

abbrev pub clip_value : ℕ → Option String → Option String × Bool
clip_value limit none = (none, false)
clip_value limit (some t) = (some (clip limit t).0, (clip limit t).1)

-- `_os_plain`
unfoldable pub plain : Option ℕ → Option Error → Answer
plain id error = record {
  t = result;
  id = id;
  text = ("", false);
  value = (none, false);
  error = error;
  test = none;
}

abbrev pub filled : Option String → Bool
filled none = false
filled (some s) = not (s == "")

abbrev pub or_empty : Option String → String
or_empty none = ""
or_empty (some s) = s

-- `_os_test_tags`
unfoldable pub test_tags : String → String → Option String → Option String → String
test_tags module_name test_class test_method params =
    let classed = concat (
      "*/"
      ∷ module_name
      ∷ ":"
      ∷ test_class
      ∷ (if filled test_method then text_append "." (or_empty test_method) else "")
      ∷ []) in
    let spec = if test_class == "" then text_append "/" module_name else classed in
    if filled params then concat (spec ∷ "[" ∷ or_empty params ∷ "]" ∷ []) else spec

-- What the loop sends: an interrupt that escaped a command becomes its answer, and the flag falls.
-- Any other exception ends the loop.
unfoldable pub settled_answer : Option ℕ → Ending → Option Answer
unfolding plain
settled_answer id (answers a) = some a
settled_answer id interrupted = some (plain id (some keyboard_interrupt))
settled_answer id failed = none

unfoldable pub still_up : Bool → Ending → Bool
still_up up interrupted = false
still_up up _ = up

-- An interrupt in the handler of the loop itself ends the process, as does an exception that the
-- loop does not catch.
unfoldable pub is_lost : Signals → Ending → Bool
is_lost s (answers a) = false
is_lost s interrupted = raises true s.settling
is_lost s failed = true

abbrev pub is_bye : Kind → Bool
is_bye bye = true
is_bye _ = false
