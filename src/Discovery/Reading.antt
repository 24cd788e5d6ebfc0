-- ===== src/Discovery/Reading.antt =====
-- What odoo_sheller/discovery.py reads back of a script that ran on a server, also of one that failed.
use odoo_sheller.Common.{
  String, Bool, not, Option, none, some, List, [], ◌∷◌, if◌then◌else◌, ◌==◌, string_eq, nat_eq,
  lookup, concat, has_part, cut_from,
}
use odoo_sheller.Discovery.{Python, says, Ran}

-- `facts[key] = value`
abbrev pub put : String → String → List (String × String) → List (String × String)
put key value [] = (key, value) ∷ []
put key value ((k, v) ∷ m) =
    let later = put key value m in if k == key then (k, value) ∷ m else (k, v) ∷ later

-- One line: `key=value` of an identifier, and nothing of any other line.
unfoldable pub note_fact : Python → String → List (String × String) → List (String × String)
note_fact py line facts =
    let parts = cut_from b'=' line in
    elim parts.1 [
      | none ↦ facts
      | some value ↦ if py.is_identifier parts.0 then put parts.0 (py.strip value) facts else facts
    ]

unfoldable pub note_facts : Python → List String → List (String × String) → List (String × String)
note_facts py [] facts = facts
note_facts py (l ∷ ls) facts = note_facts py ls (note_fact py l facts)

-- `_facts`
unfoldable pub facts_of : Python → String → List (String × String)
unfolding note_facts
facts_of py out = note_facts py (py.splitlines out) []

-- `facts.get(key) or None`
abbrev pub fact : String → List (String × String) → Option String
fact key facts = elim (lookup key facts) [ none ↦ none | some v ↦ if v == "" then none else some v ]

abbrev pub is_set : String → List (String × String) → Bool
is_set key facts = says (lookup key facts) "1"

-- The needles of `_SSH_HINTS`, in order, each with its code; the hints are left out.
abbrev pub ssh_hints : List (String × String)
ssh_hints =
    ("REMOTE HOST IDENTIFICATION HAS CHANGED", "host_key_changed")
    ∷ ("Host key verification failed", "host_key")
    ∷ ("Permission denied (publickey", "auth")
    ∷ ("Could not resolve hostname", "unreachable")
    ∷ ("Connection refused", "unreachable")
    ∷ ("Connection timed out", "unreachable")
    ∷ ("No route to host", "unreachable")
    ∷ ("a password is required", "sudo")
    ∷ ("no tty present", "sudo")
    ∷ ("unknown user", "sudo")
    ∷ ("not allowed to execute", "sudo")
    ∷ ("not in the sudoers file", "sudo")
    ∷ []

unfoldable pub hint_of : String → List (String × String) → Option String
hint_of raw [] = none
hint_of raw ((needle, hint) ∷ hints) = if has_part needle raw then some hint else hint_of raw hints

-- `_ssh_failure`: the raw text, and the code of the first hint that fits.
unfoldable pub ssh_failure : Python → Ran → String × Option String
unfolding hint_of
ssh_failure py r =
    let said = py.strip r.err in
    let printed = py.strip r.out in
    let raw =
      if not (said == "")
      then said
      else if not (printed == "")
      then printed
      else concat ("the probe failed with code " ∷ py.shown r.exit_code ∷ []) in
    (raw, hint_of raw ssh_hints)
