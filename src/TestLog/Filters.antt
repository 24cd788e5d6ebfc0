-- ===== src/TestLog/Filters.antt =====
-- What a run of `run_test` in odoo_sheller/session.py starts from: the filters that its params ask
-- for, and the fields that the reading of its log begins with.
use odoo_sheller.Common.{
  code, String, Bool, false, ◌&&◌, ◌||◌, Option, none, some, List, [], ◌∷◌, if◌then◌else◌, ◌==◌,
  string_eq, nat_eq, starts_with,
}
use odoo_sheller.TestLog.{Python, Progress, Reading}
use odoo_sheller.TestLog.Reader.{put_key}
use odoo_sheller.TestLog.Hash.{hoot_hash}

-- `(?=-?@)`
unfoldable pub opens_filter : String → Bool
opens_filter s = starts_with s "@" || starts_with s "-@"

-- `re.split(r",(?=-?@)", params)`: the first part, and the parts behind it.
unfoldable pub split_filters : String → String × List String
split_filters String.[] = ("", [])
split_filters (String.◌∷◌ c s) =
    let (first, rest) = split_filters s in
    if code c == b',' && opens_filter s then ("", first ∷ rest) else (String.◌∷◌ c first, rest)

module _ (py : Python) where
  -- A part that is empty or excluded narrows nothing.
  unfoldable pub included : List String → List (String × String) → List (String × String)
  included [] m = m
  included (p ∷ ps) m =
      let part = py.strip p in
      let with_part = put_key (hoot_hash part) part m in
      included ps (if part == "" || starts_with part "-" then m else with_part)

  unfoldable pub hoot_filters : String → List (String × String)
  hoot_filters params = let (first, rest) = split_filters params in included (first ∷ rest) []

  -- The fields as `run_test` sets them.
  unfoldable pub start_run : String → Option String → Bool → Reading
  start_run module_name params has_pid =
      let p : Progress = record {
        current = none;
        started = 0;
        failures = 0;
        errors = 0;
        skipped = 0;
      } in
      record {
        test_module = some module_name;
        failures = [];
        progress = some p;
        hoot = none;
        reason_for = none;
        reason = [];
        filters = elim params [
          | none ↦ []
          | some text ↦ if text == "" then [] else hoot_filters text
        ];
        stopping = false;
        run = some (params, none);
        has_pid = has_pid;
        interrupts = [];
        emitted = p ∷ [];
      }
