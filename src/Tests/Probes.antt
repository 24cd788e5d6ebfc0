-- ===== src/Tests/Probes.antt =====
-- Answers of probes on which the theorems are applied.
use odoo_sheller.Recipe.{Access, Launch}
use odoo_sheller.Common.{
  String, ◌≡◌, refl, true, false, not, ◌&&◌, ◌||◌, none, some, List, [], ◌∷◌, map, ◌==◌, string_eq,
  nat_eq, is_some, lookup, all_chars, is_digit, text_append, join, split_on,
}
use odoo_sheller.Discovery.{Python, version_refusal, Payload, is_one_of, gate_on_version, Ran}
use odoo_sheller.Discovery.Probing.{major_before_dot, wants_config, probe_ssh}
use odoo_sheller.Discovery.Facts.{emitted, last_emitted, facts_of-emitted}
use odoo_sheller.Discovery.Gates.{version_refusal-gate, probe_ssh-usable}
use odoo_sheller.Discovery.Reading.{facts_of, fact, is_set}

-- Enough of Python for texts without white space round them.
abbrev plain_python : Python
plain_python = record {
  strip = λ s. s;
  is_identifier = λ s. not (s == "");
  is_digits = λ s. all_chars is_digit s && not (s == "");
  split = λ s. s ∷ [];
  splitlines = split_on 10;
  shown = λ n. "0";
}

abbrev printed_pairs : List (String × String)
printed_pairs =
    ("effective_user", "odoo")
    ∷ ("db_name", "a=b")
    ∷ ("executable_ok", "0")
    ∷ ("executable_ok", "1")
    ∷ ("odoo_version", "17.0")
    ∷ []

abbrev printed_text : String
printed_text = join "\n" (map emitted printed_pairs)

facts_of-emitted_example :
    lookup "executable_ok" (facts_of plain_python printed_text)
    ≡ last_emitted plain_python "executable_ok" printed_pairs none
facts_of-emitted_example =
    facts_of-emitted plain_python printed_text "executable_ok" printed_pairs refl
      ((refl, refl), ((refl, refl), ((refl, refl), ((refl, refl), ((refl, refl), tt)))))

abbrev small_payload : Payload
small_payload = record {
  ok = true;
  odoo_bin = some "/odoo-bin";
  odoo_version = some "12.0";
  odoo_major = some 12;
  python = none;
  config = none;
  db_name = none;
  stage = none;
  supported = false;
  untested = false;
  warning = none;
  error = none;
  error_code = none;
  error_detail = none;
}

version_refusal-gate_example :
    is_some (version_refusal plain_python.shown (some (text_append "12" (text_append "." "0"))))
    ≡ not (gate_on_version plain_python.shown small_payload).supported
unfolding major_before_dot
version_refusal-gate_example =
    version_refusal-gate plain_python "1" "2" "0" small_payload refl refl refl

abbrev small_access : Access
small_access = record {
  options = [];
  user = none;
  host = "acme";
  port = none;
  keys = [];
  jump = none;
  become = none;
}

abbrev small_launch : Launch
small_launch = record {
  argv = "/usr/bin/odoo" ∷ "shell" ∷ [];
  database = none;
  config = none;
  odoo_bin = "/usr/bin/odoo";
  http_off = true;
  http_port = none;
}

probe_ssh-usable_example :
    let r : Ran = record { exit_code = 0; out = printed_text; err = "" } in
    let p = (probe_ssh plain_python small_access small_launch r).common in
    let facts = facts_of plain_python printed_text in
    let major = major_before_dot plain_python (fact "odoo_version" facts) in
    (p.ok && p.supported) ≡ (
      is_some (lookup "effective_user" facts)
      && is_set "executable_ok" facts
      && (not (wants_config small_launch) || is_set "config_readable" facts)
      && (not (is_some major) || is_one_of (13 ∷ 14 ∷ 15 ∷ 16 ∷ 17 ∷ 18 ∷ 19 ∷ 20 ∷ []) major))
probe_ssh-usable_example =
    probe_ssh-usable plain_python small_access small_launch
      (record { exit_code = 0; out = printed_text; err = "" })
