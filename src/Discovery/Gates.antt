-- ===== src/Discovery/Gates.antt =====
-- That the two gates of odoo_sheller/discovery.py on a version agree, and what a usable server is.
use odoo_sheller.Recipe.{Access, Launch}
use odoo_sheller.Common.{
  ℕ, ◌+◌, ◌-◌, ◌*◌, Char, code, String, ◌≡◌, refl, ap, ◌∙◌, inl, inr, true, false, not, ◌&&◌, ◌||◌,
  some, List, [], ◌∷◌, arith, cons-append, nil-append, ◌==◌, string_eq, nat_eq, Option-cases,
  is_some, contains, lookup, all_chars, is_digit, text_append, split_on, digits_value,
}
use odoo_sheller.Discovery.{
  Python, supported_majors, untested_majors, version_number, version_refusal, Payload, is_one_of,
  gate_on_version, Ran,
}
use odoo_sheller.Discovery.Probing.{major_before_dot, wants_config, spoken, failed_probe, probe_ssh}
use odoo_sheller.Discovery.Reading.{facts_of, fact, is_set}

-- The number of a text of digits is what the pattern reads up to the dot.
behind_dot : (rest : String) → text_append "." rest ≡ String.◌∷◌ "." rest
behind_dot rest = cons-append "." "" rest ∙ ap (λ t. String.◌∷◌ "." t) (nil-append rest)

version_number-digits :
    (n : ℕ) (d rest : String)
    → all_chars is_digit d ≡ true
    → version_number n true (text_append d (text_append "." rest)) ≡ some (digits_value n d)
unfolding version_number
version_number-digits n String.[] rest h =
    ap (version_number n true) (nil-append (text_append "." rest) ∙ behind_dot rest)
version_number-digits n (String.◌∷◌ c s) rest h =
    let digit : is_digit (code c) ≡ true = ground (arith, h) in
    let digits : all_chars is_digit s ≡ true = ground (arith, h) in
    ap (version_number n true) (cons-append c s (text_append "." rest))
    ∙ rw digit (version_number-digits (n * 10 + (code c - b'0')) s rest digits)

no_dot : (c : ℕ) → is_digit c ≡ true → (c == b'.') ≡ false
no_dot c h = ground (arith, h)

split-head :
    (d rest : String)
    → all_chars is_digit d ≡ true
    → (ws : List String) × (split_on b'.' (text_append d (text_append "." rest)) ≡ d ∷ ws)
split-head String.[] rest h =
    (split_on b'.' rest, ap (split_on b'.') (nil-append (text_append "." rest) ∙ behind_dot rest))
split-head (String.◌∷◌ c s) rest h =
    let digit : is_digit (code c) ≡ true = ground (arith, h) in
    let digits : all_chars is_digit s ≡ true = ground (arith, h) in
    let (ws, e) = split-head s rest digits in
    (
      ws,
      ap (split_on b'.') (cons-append c s (text_append "." rest))
          ∙ rw (no_dot (code c) digit) (rw e),
    )

-- What both read of a version that begins with a number and a dot.
version_known :
    (py : Python) (c : Char) (s rest : String)
    → let d = String.◌∷◌ c s in
      let v = text_append d (text_append "." rest) in
      all_chars is_digit d ≡ true
      → py.is_digits d ≡ true
      → (version_number 0 false v ≡ some (digits_value 0 d))
        × (major_before_dot py (some v) ≡ some (digits_value 0 d))
unfolding version_number major_before_dot
version_known py c s rest h whole =
    let d = String.◌∷◌ c s in
    let digit : is_digit (code c) ≡ true = ground (arith, h) in
    let digits : all_chars is_digit s ≡ true = ground (arith, h) in
    let (ws, e) = split-head d rest h in
    (
      ap (version_number 0 false) (cons-append c s (text_append "." rest))
          ∙ rw digit (version_number-digits (0 * 10 + (code c - b'0')) s rest digits),
      ground (arith, e, whole),
    )

-- The gate of a probe and the one that is asked once a session has said its version agree, whatever
-- else the probe found: on a version that begins with a number and a dot, the session is refused
-- exactly if a probe that took its major from that version calls it unsupported. `isdigit` is taken
-- to hold of the number.
pub version_refusal-gate :
    (py : Python) (c : Char) (s rest : String) (p : Payload)
    → let d = String.◌∷◌ c s in
      let v = text_append d (text_append "." rest) in
      all_chars is_digit d ≡ true
      → py.is_digits d ≡ true
      → p.odoo_major ≡ major_before_dot py (some v)
      → is_some (version_refusal py.shown (some v)) ≡ not (gate_on_version py.shown p).supported
unfolding version_refusal gate_on_version
version_refusal-gate py c s rest p h whole major =
    let (read, known) = version_known py c s rest h whole in
    let found : p.odoo_major ≡ some (digits_value 0 (String.◌∷◌ c s)) = major ∙ known in
    ground (arith, read, found)

majors_joined :
    (m : ℕ)
    → (contains supported_majors m || contains untested_majors m)
      ≡ contains (13 ∷ 14 ∷ 15 ∷ 16 ∷ 17 ∷ 18 ∷ 19 ∷ 20 ∷ []) m
majors_joined m = ground arith

spoken-usable :
    (py : Python) (a : Access) (l : Launch) (facts : List (String × String)) (user : String)
    → let p = (spoken py a l facts user).common in
      let major = major_before_dot py (fact "odoo_version" facts) in
      (p.ok && p.supported) ≡ (
        is_set "executable_ok" facts
        && (not (wants_config l) || is_set "config_readable" facts)
        && (not (is_some major) || is_one_of (13 ∷ 14 ∷ 15 ∷ 16 ∷ 17 ∷ 18 ∷ 19 ∷ 20 ∷ []) major))
unfolding spoken gate_on_version
spoken-usable py a l facts user =
    elim (Option-cases (major_before_dot py (fact "odoo_version" facts))) [
      | inl e ↦ rw e (ground arith)
      | inr (m, e) ↦ rw e (ground (arith, majors_joined m))
    ]

-- A server reached by ssh counts as usable, which is when a session may be opened on it, exactly if
-- it told who the probe ran as, the launch's executable is one there, its config, if it has one,
-- can be read, and its major is unknown or one of 13 to 20.
pub probe_ssh-usable :
    (py : Python) (a : Access) (l : Launch) (r : Ran)
    → let p = (probe_ssh py a l r).common in
      let facts = facts_of py r.out in
      let major = major_before_dot py (fact "odoo_version" facts) in
      (p.ok && p.supported) ≡ (
        is_some (lookup "effective_user" facts)
        && is_set "executable_ok" facts
        && (not (wants_config l) || is_set "config_readable" facts)
        && (not (is_some major) || is_one_of (13 ∷ 14 ∷ 15 ∷ 16 ∷ 17 ∷ 18 ∷ 19 ∷ 20 ∷ []) major))
unfolding probe_ssh failed_probe
probe_ssh-usable py a l r = elim (Option-cases (lookup "effective_user" (facts_of py r.out))) [
  | inl e ↦ rw (e, probe_ssh) refl
  | inr (user, e) ↦ rw (e, probe_ssh) (spoken-usable py a l (facts_of py r.out) user)
]
