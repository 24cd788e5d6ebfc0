-- ===== src/Rules.antt =====
-- odoo_sheller/rules/__init__.py: the Odoo major that a version names. Digits are ASCII, as in
-- every version that Odoo reports.
use odoo_sheller.Common.{
  ℕ, ◌+◌, ◌-◌, ◌*◌, code, String, Bool, true, false, ◌&&◌, Option, none, some, if◌then◌else◌, ◌==◌,
  string_eq, nat_eq, is_digit, starts_digit,
}

-- What the pattern reads at one place: a number, a dot, and a digit behind it. `n` is the number
-- so far, and `seen` whether it has a digit.
number_dot : ℕ → Bool → String → Option ℕ
number_dot n seen String.[] = none
number_dot n seen (String.◌∷◌ c s) =
    let more = number_dot (n * 10 + (code c - b'0')) true s in
    if is_digit (code c)
    then more
    else if seen && code c == b'.' && starts_digit s
    then some n
    else none

-- `_MAJOR.search`, the first place where the pattern fits
search_major : String → Option ℕ
unfolding number_dot
search_major String.[] = none
search_major (String.◌∷◌ c s) =
    let later = search_major s in
    elim (number_dot 0 false (String.◌∷◌ c s)) [ some n ↦ some n | none ↦ later ]

unfoldable pub major_of : Option String → Option ℕ
unfolding search_major
major_of none = none
major_of (some version) = search_major version
