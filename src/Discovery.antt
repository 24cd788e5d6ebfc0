-- ===== src/Discovery.antt =====
-- odoo_sheller/discovery.py: what is made of the answers of the probes, and whether the Odoo that
-- they find is one that this tool runs on. Versions are read with ASCII digits.
pub mod Reading
pub mod Probing
pub mod Facts
pub mod Gates
use odoo_sheller.Common.{
  ℕ, ◌+◌, ◌-◌, ◌*◌, code, String, Bool, true, false, not, ◌&&◌, ◌||◌, Option, none, some, List, [],
  ◌∷◌, map, if◌then◌else◌, ◌==◌, string_eq, nat_eq, contains, is_digit, starts_with, concat, join,
  has_part,
}

-- What Python does with a text, from outside: `str.strip`, `str.isidentifier`, `str.isdigit`,
-- `str.split`, and `str.splitlines`.
pub record Python : Type 0 where
  pub strip : String → String
  pub is_identifier : String → Bool
  pub is_digits : String → Bool
  pub split : String → List String
  pub splitlines : String → List String
  pub shown : ℕ → String

abbrev pub supported_majors : List ℕ
supported_majors = 15 ∷ 16 ∷ 17 ∷ 18 ∷ 19 ∷ 20 ∷ []

abbrev pub untested_majors : List ℕ
untested_majors = 13 ∷ 14 ∷ []

-- `_allowed_list`
unfoldable pub allowed_list : (ℕ → String) → String
allowed_list shown = concat (
    join ", " (map shown supported_majors)
    ∷ " ("
    ∷ join " and " (map shown untested_majors)
    ∷ ": not fully tested)"
    ∷ [])

-- What `\D*(\d+)\.` reads at the start of a version: `n` is the number so far, and `seen` whether it
-- has a digit.
unfoldable pub version_number : ℕ → Bool → String → Option ℕ
version_number n seen String.[] = none
version_number n seen (String.◌∷◌ c s) =
    let more = version_number (n * 10 + (code c - b'0')) true s in
    let later = version_number n false s in
    if is_digit (code c)
    then more
    else if seen
    then (if code c == b'.' then some n else none)
    else later

unfoldable pub refusal_text : (ℕ → String) → String → String
unfolding allowed_list
refusal_text shown version =
    concat ("Odoo " ∷ version ∷ " found; supported: " ∷ allowed_list shown ∷ [])

abbrev pub shown_version : Option String → String
shown_version none = "None"
shown_version (some v) = v

abbrev pub or_empty : Option String → String
or_empty none = ""
or_empty (some s) = s

-- `version_refusal`
unfoldable pub version_refusal : (ℕ → String) → Option String → Option String
unfolding version_number refusal_text
version_refusal shown version = elim (version_number 0 false (or_empty version)) [
  | none ↦ none
  | some major ↦
      if contains supported_majors major || contains untested_majors major
      then none
      else some (refusal_text shown (shown_version version))
]

-- The keys of a probe's answer that the code reads or sets.
pub record Payload : Type 0 where
  pub ok : Bool
  pub odoo_bin : Option String
  pub odoo_version : Option String
  pub odoo_major : Option ℕ
  pub python : Option String
  pub config : Option String
  pub db_name : Option String
  pub stage : Option String
  pub supported : Bool
  pub untested : Bool
  pub warning : Option String
  pub error : Option String
  pub error_code : Option String
  pub error_detail : Option String

-- `major in majors`, for a major that may be `None`
abbrev pub is_one_of : List ℕ → Option ℕ → Bool
is_one_of majors none = false
is_one_of majors (some m) = contains majors m

-- `_untested_warning`
unfoldable pub untested_warning : Option String → Option ℕ → String
untested_warning version major = concat (
    "Odoo "
    ∷ shown_version version
    ∷ " is not fully tested: nothing has run on it here. Sessions, "
    ∷ "exec, commit, rollback and interrupt should work, going by its source"
    ∷ (if is_one_of (13 ∷ []) major
        then "; run_test does not — Odoo 13 has no loader to build a test suite from"
        else "")
    ∷ "."
    ∷ [])

abbrev pub says : Option String → String → Bool
says none t = false
says (some s) t = s == t

-- `_gate_on_version`
unfoldable pub gate_on_version : (ℕ → String) → Payload → Payload
unfolding untested_warning refusal_text
gate_on_version shown p =
    let untested = is_one_of untested_majors p.odoo_major in
    let supported = is_one_of supported_majors p.odoo_major || untested in
    let no_bin = says p.error "odoo-bin not found" in
    let unfit = p.ok && not supported in
    record p {
      untested = untested;
      supported = supported;
      warning = if untested then some (untested_warning p.odoo_version p.odoo_major) else none;
      error_code = if no_bin then some "no_odoo_bin" else p.error_code;
      error =
          if unfit
          then some (refusal_text shown (shown_version p.odoo_version))
          else if no_bin
          then some "no odoo-bin in this container"
          else p.error;
    }

-- `_unreadable`
unfoldable pub unreadable : Python → ℕ → String → String → Payload
unreadable py exit_code out err =
    let said = py.strip err in
    let printed = py.strip out in
    let raw =
      if not (said == "")
      then said
      else if not (printed == "")
      then printed
      else concat ("probe failed with code " ∷ py.shown exit_code ∷ []) in
    let no_python = has_part "executable file not found" raw && has_part "python3" raw in
    record {
      ok = false;
      odoo_bin = none;
      odoo_version = none;
      odoo_major = none;
      python = none;
      config = none;
      db_name = none;
      stage = none;
      supported = false;
      untested = false;
      warning = none;
      error_code = if no_python then some "no_python" else none;
      error = some (if no_python then "no python3 in this container" else raw);
      error_detail = if no_python then some raw else none;
    }

abbrev onto : List String → List String → List String
onto [] out = out
onto (l ∷ ls) out = onto ls (l ∷ out)

-- `_last_json_line`; `loads` is `json.loads`, with nothing where it raises.
module _ {J : Type 0} where
  first_json : Python → (String → Option J) → List String → Option J
  first_json py loads [] = none
  first_json py loads (l ∷ ls) =
      let later = first_json py loads ls in
      if starts_with (py.strip l) "{"
      then (elim (loads l) [ some j ↦ some j | none ↦ later ])
      else later

  unfoldable pub last_json_line : Python → (String → Option J) → String → Option J
  unfolding first_json
  last_json_line py loads out = first_json py loads (onto (py.splitlines out) [])

-- What a run of the probe gives: its exit code, and what it printed.
pub record Ran : Type 0 where
  pub exit_code : ℕ
  pub out : String
  pub err : String

-- `probe` and `probe_odoosh`, behind the run of their script
unfoldable pub probed : Python → (String → Option Payload) → Ran → Payload
unfolding last_json_line gate_on_version unreadable
probed py loads r = elim (last_json_line py loads r.out) [
  | some p ↦ gate_on_version py.shown p
  | none ↦ unreadable py r.exit_code r.out r.err
]
