-- ===== src/Discovery/Probing.antt =====
-- `probe_ssh` of odoo_sheller/discovery.py: what a server says of itself, line by line.
use odoo_sheller.Recipe.{Access, Launch}
use odoo_sheller.Common.{
  ℕ, String, Bool, false, not, ◌&&◌, ◌||◌, Option, none, some, List, [], ◌∷◌, if◌then◌else◌, ◌==◌,
  string_eq, nat_eq, is_some, lookup, concat, split_on, digits_value,
}
use odoo_sheller.Discovery.{Python, or_empty, Payload, gate_on_version, Ran}
use odoo_sheller.Discovery.Reading.{facts_of, fact, is_set, ssh_failure}

-- `_launch_warning`: the port that the launch will bind beside the service, if it will.
unfoldable pub launch_warning : Python → List (String × String) → Launch → Option String
launch_warning py facts l =
    let workers = or_empty (lookup "workers" facts) in
    let configured : String = elim (fact "http_port" facts) [ none ↦ "8069" | some p ↦ p ] in
    let moved : Option String = elim l.http_port [
      | none ↦ none
      | some p ↦ if p == "" then none else some p
    ] in
    let port : String = elim moved [ none ↦ configured | some p ↦ p ] in
    if not (py.is_digits workers) || digits_value 0 workers == 0 || l.http_off
    then none
    else if not (port == configured)
    then none
    else some port

abbrev pub first_of : List String → Option String
first_of [] = none
first_of (w ∷ ws) = some w

-- The major of a version: the number before its first dot.
unfoldable pub major_before_dot : Python → Option String → Option ℕ
major_before_dot py none = none
major_before_dot py (some version) = elim (first_of (split_on b'.' version)) [
  | none ↦ none
  | some first ↦ if py.is_digits first then some (digits_value 0 first) else none
]

abbrev pub python_of : List String → Option String
python_of [] = none
python_of (w ∷ []) = none
python_of (w ∷ v ∷ ws) = if w == "Python" then some v else none

abbrev pub unset : Option String → Option String
unset none = none
unset (some d) = if d == "False" || d == "false" then none else some d

-- What `probe_ssh` answers beside the common keys.
pub record SshPayload : Type 0 where
  pub common : Payload
  pub effective_user : Option String
  pub executable_ok : Bool
  pub config_readable : Option Bool
  pub version_known : Bool
  pub workers : Option ℕ
  pub launch_warning : Option String

abbrev pub argv_head : Launch → String
argv_head l = elim l.argv [ [] ↦ "" | w ∷ ws ↦ w ]

-- `launch.config`, as a test
abbrev pub wants_config : Launch → Bool
wants_config l = elim l.config [ none ↦ false | some c ↦ not (c == "") ]

-- The answer where the server spoke: `user` is who the probe ran as. The version's gate comes last.
unfoldable pub spoken : Python → Access → Launch → List (String × String) → String → SshPayload
unfolding launch_warning major_before_dot gate_on_version
spoken py a l facts user =
    let version = fact "odoo_version" facts in
    let major = major_before_dot py version in
    let executable = is_set "executable_ok" facts in
    let readable : Option Bool =
      if wants_config l then some (is_set "config_readable" facts) else none in
    let unreadable_config = wants_config l && not (is_set "config_readable" facts) in
    let ok = executable && not unreadable_config in
    let workers = or_empty (lookup "workers" facts) in
    let where_it_is : String = elim (fact "host" facts) [ none ↦ a.host | some h ↦ h ] in
    let answer : Payload = record {
      ok = ok;
      odoo_bin = some l.odoo_bin;
      odoo_version = version;
      odoo_major = major;
      python = python_of (py.split (or_empty (fact "interpreter" facts)));
      config = l.config;
      db_name = unset (fact "db_name" facts);
      stage = none;
      supported = ok;
      untested = false;
      warning = none;
      error =
          if not executable
          then some (
              concat (
                argv_head l
                ∷ " is not an executable file on "
                ∷ where_it_is
                ∷ " for user "
                ∷ user
                ∷ []))
          else if unreadable_config
          then some (
              concat (
                "the config "
                ∷ or_empty l.config
                ∷ " is not readable by "
                ∷ user
                ∷ " on "
                ∷ where_it_is
                ∷ ". A server's config is usually readable only by its Odoo user: "
                ∷ "if that is not who this is, Access has to become it (sudo -n -u USER -H)"
                ∷ []))
          else none;
      error_code =
          if not executable
          then some "launch_not_executable"
          else if unreadable_config
          then some "config_unreadable"
          else none;
      error_detail = none;
    } in
    record {
      common = elim major [ none ↦ answer | some m ↦ gate_on_version py.shown answer ];
      effective_user = some user;
      executable_ok = executable;
      config_readable = readable;
      version_known = is_some major;
      workers = if py.is_digits workers then some (digits_value 0 workers) else none;
      launch_warning = launch_warning py facts l;
    }

unfoldable pub failed_probe : Python → Ran → SshPayload
unfolding ssh_failure
failed_probe py r =
    let failure = ssh_failure py r in
    record {
      common = record {
        ok = false;
        odoo_bin = none;
        odoo_version = none;
        odoo_major = none;
        python = none;
        config = none;
        db_name = none;
        stage = none;
        supported = false;
        untested = false;
        warning = none;
        error = some failure.0;
        error_code = failure.1;
        error_detail = some failure.0;
      };
      effective_user = none;
      executable_ok = false;
      config_readable = none;
      version_known = false;
      workers = none;
      launch_warning = none;
    }

-- `probe_ssh`, behind the run of the script. The login user and the name of the host are
-- left out.
unfoldable pub probe_ssh : Python → Access → Launch → Ran → SshPayload
unfolding facts_of spoken failed_probe
probe_ssh py a l r =
    let facts = facts_of py r.out in
    elim (lookup "effective_user" facts) [
      | none ↦ failed_probe py r
      | some user ↦ spoken py a l facts user
    ]
