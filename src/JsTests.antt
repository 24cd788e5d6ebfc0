-- ===== src/JsTests.antt =====
-- odoo_sheller/js_tests.py: whether a session can run a browser suite, and how a run that did not
-- says so.
pub mod Closed
use odoo_sheller.Common.{
  ℕ, String, Bool, true, false, not, ◌&&◌, ◌||◌, Option, none, some, List, [], ◌∷◌, ltb, leb,
  if◌then◌else◌, ◌==◌, string_eq, nat_eq, is_some, length, concat,
}

-- `REASONS`
abbrev pub runner_not_supported : String
runner_not_supported = "runner_not_supported"

abbrev pub chrome_not_found : String
chrome_not_found = "chrome_not_found"

abbrev pub websocket_client_missing : String
websocket_client_missing = "websocket_client_missing"

abbrev pub probe_failed : String
probe_failed = "probe_failed"

abbrev pub reasons : List String
reasons = runner_not_supported ∷ chrome_not_found ∷ websocket_client_missing ∷ probe_failed ∷ []

-- `major in range(first, stop)`
abbrev in_range : ℕ → ℕ → Option ℕ → Bool
in_range first stop none = false
in_range first stop (some n) = leb first n && ltb n stop

unfoldable pub runner_for : Option ℕ → Option String
runner_for major =
    if in_range 18 21 major
    then some "hoot"
    else if in_range 15 18 major
    then some "qunit"
    else none

-- `VERIFIED.get(major)`
unfoldable pub verified : Option ℕ → Option String
verified none = none
verified (some n) =
    if n == 18 || n == 19 then some "18-19" else if n == 20 then some "unverified" else none

-- The `js` of a hello: an object with what the bootstrap looked for, or anything else.
pub data Found : Type 0 where
  nothing : Found
  -- whether it has an `error`; `chrome`, if that is a Boolean; whether `websocket` is true
  looked : Bool → Option Bool → Bool → Found

pub record Capability : Type 0 where
  pub runner : Option String
  pub available : Bool
  pub reason : Option String
  pub tested : Option String

unfoldable pub is_hoot : Option String → Bool
is_hoot none = false
is_hoot (some r) = r == "hoot"

-- What stands against a run in a browser, the runner apart.
unfoldable pub obstacle : Found → Option String
obstacle nothing = some probe_failed
obstacle (looked true chrome websocket) = some probe_failed
obstacle (looked false none websocket) = some probe_failed
obstacle (looked false (some chrome) websocket) =
    if not websocket
    then some websocket_client_missing
    else if not chrome
    then some chrome_not_found
    else none

-- `capability`, from the major of the hello's version
unfoldable pub capability : Option ℕ → Found → Capability
capability major found =
    let runner = runner_for major in
    let reason = if is_hoot runner then obstacle found else some runner_not_supported in
    record {
      runner = runner;
      available = not (is_some reason);
      reason = reason;
      tested = verified major;
    }

-- `listing`: the runner, the files, and the run that is offered: its test and its params.
unfoldable pub listing :
    {F : Type 0} → String → Option ℕ → List F → Option String × List F × Option (String × String)
listing module_name major files =
    let runner = runner_for major in
    (
      runner,
      files,
      (if is_hoot runner && ltb 0 (length files)
          then some ("web.WebSuite.test_unit_desktop", concat ("@" ∷ module_name ∷ []))
          else none),
    )

-- `line.rstrip().endswith(" : " + message)`
abbrev pub ends_with : String → String → Bool
ends_with String.[] t = t == ""
ends_with (String.◌∷◌ c s) t = let rest = ends_with s t in String.◌∷◌ c s == t || rest

unfoldable pub skip_reason : (String → String) → String → Option String
skip_reason rstrip line =
    if ends_with (rstrip line) " : Chrome executable not found"
    then some chrome_not_found
    else if ends_with (rstrip line) " : websocket-client module is not installed"
    then some websocket_client_missing
    else none
