-- ===== src/Recipe/Words.antt =====
-- The words that odoo_sheller/recipe.py and odoo_sheller/names.py accept: users, names, hops, ports
-- and key files. The regular expressions are written out as functions on the characters.
use odoo_sheller.Common.{
  ℕ, code, String, ◌≡◌, refl, ◌⊎◌, inl, inr, Bool, false, not, ◌&&◌, ◌||◌, Option, none, some, List,
  [], ◌∷◌, arith, leb, if◌then◌else◌, ◌==◌, string_eq, nat_eq, any, all_chars, is_digit, is_alnum,
  has_char, cut_from, split_on, text_length, digits_value,
}

-- Why a recipe is refused.
pub data Reason : Type 0 where
  is_empty has_nul many_lines unbalanced operator : Reason
  needs_value bad_port bad_user relative_key percent_key missing_key bad_jump : Reason
  option_refused bad_timeout bad_identities bad_batch bad_form : Reason
  dash_dash two_ats bad_host other_become not_sudo bare_word user_twice bad_flag needs_n : Reason
  two_values not_ssh no_destination relative_launch no_shell : Reason

pub data Result {ℓ} (A : Type ℓ) : Type ℓ where
  err : Reason → Result A
  ok : A → Result A

infixl 5 ◌>>=◌
-- A refused word refuses what is made of it.
abbrev pub ◌>>=◌ {ℓ κ} :
    {Word : Type ℓ} {Made : Type κ} → Result Word → (Word → Result Made) → Result Made
err why >>= next = err why
ok word >>= next = next word

-- What Python does: `shlex` as `_split` sets it up (`none` for an unbalanced quote), `str.strip`
-- and `\s`, `str.lower`, `str` of a number, and `os.path` on the machine of the daemon.
pub record Python : Type 0 where
  pub lex : String → Option (List String)
  pub is_space : ℕ → Bool
  pub lower : String → String
  pub decimal : ℕ → String
  pub expanduser : String → String
  pub isabs : String → Bool
  pub is_file : String → Bool

-- `[A-Za-z0-9._-]`
abbrev pub name_char : ℕ → Bool
name_char c = is_alnum c || c == b'.' || c == b'_' || c == b'-'

-- `SSH_NAME_RE.fullmatch`, as `check_ssh_name` asks it
unfoldable pub is_ssh_name : String → Bool
is_ssh_name String.[] = false
is_ssh_name (String.◌∷◌ c s) = is_alnum (code c) && all_chars name_char s

-- `USER_RE.fullmatch`
unfoldable pub is_user : String → Bool
is_user String.[] = false
is_user (String.◌∷◌ c s) = (is_alnum (code c) || code c == b'_') && all_chars name_char s

-- `[0-9]{1,most}`
unfoldable pub is_number : ℕ → String → Bool
is_number most s = leb 1 (text_length s) && leb (text_length s) most && all_chars is_digit s

-- `_port`
unfoldable pub port_of : String → Result ℕ
port_of value =
    let n = digits_value 0 value in
    if is_number 5 value && leb 1 n && leb n 65535 then ok n else err bad_port

-- `_user`
unfoldable pub user_of : String → Result String
user_of value = if is_user value && leb (text_length value) 32 then ok value else err bad_user

-- `_key`
unfoldable pub key_of : Python → String → Result String
key_of py value =
    let path = py.expanduser value in
    if not (py.isabs path)
    then err relative_key
    else if has_char b'%' path
    then err percent_key
    else if not (py.is_file path)
    then err missing_key
    else ok path

-- What is wrong with the end of a hop: its host, and the port if one is given.
abbrev host_port_problem : String × Option String → Option Reason
host_port_problem (host, none) = if is_ssh_name host then none else some bad_jump
host_port_problem (host, some port) =
    if is_ssh_name host && is_number 5 port
    then elim (port_of port) [ ok n ↦ none | err e ↦ some e ]
    else some bad_jump

abbrev hop_parts_problem : String × Option String → Option Reason
hop_parts_problem (host, none) = host_port_problem (cut_from b':' host)
hop_parts_problem (user, some host) =
    if is_user user then host_port_problem (cut_from b':' host) else some bad_jump

-- `HOP_RE.fullmatch`, and the range of the port
unfoldable pub hop_problem : String → Option Reason
hop_problem hop = hop_parts_problem (cut_from b'@' hop)

-- The loop of `_jump`: the first hop that is refused.
unfoldable pub hops_problem : List String → Option Reason
hops_problem [] = none
hops_problem (hop ∷ hops) =
    let rest = hops_problem hops in elim (hop_problem hop) [ some e ↦ some e | none ↦ rest ]

-- `_jump`
unfoldable pub jump_of : String → Result String
jump_of value = elim (hops_problem (split_on b',' value)) [ some e ↦ err e | none ↦ ok value ]

-- A token that is nothing but `();<>|&`, and not empty
unfoldable pub is_operator : String → Bool
is_operator token =
    not (token == "")
    && all_chars
        (λ c.
          c == b'(' || c == b')' || c == b';' || c == b'<' || c == b'>' || c == b'|' || c == b'&')
        token

-- The tests that `_split` makes before it asks the lexer.
abbrev one_line : Python → String → Option Reason
one_line py text =
    if all_chars py.is_space text
    then some is_empty
    else if has_char 0 text
    then some has_nul
    else if has_char 10 text || has_char 13 text
    then some many_lines
    else none

-- `_split`
unfoldable pub split_text : Python → String → Result (List String)
split_text py text = elim (one_line py text) [
  | some e ↦ err e
  | none ↦ elim (py.lex text) [
    | none ↦ err unbalanced
    | some tokens ↦ if any is_operator tokens then err operator else ok tokens
  ]
]

-- Inversion of a step that succeeded.
pub >>=-eq-ok {ℓ κ} :
    {Word : Type ℓ} {Made : Type κ} (step : Result Word) (next : Word → Result Made) {b : Made}
    → (step >>= next) ≡ ok b
    → (word : Word) × (step ≡ ok word) × (next word ≡ ok b)
>>=-eq-ok (err why) next h = cc
>>=-eq-ok (ok word) next h = (word, refl, h)

pub ok-injective {ℓ} : {A : Type ℓ} {a b : A} → ok a ≡ ok b → a ≡ b
ok-injective h = cc

pub Result-cases {ℓ} :
    {A : Type ℓ} (m : Result A) → ((a : A) × (m ≡ ok a)) ⊎ ((e : Reason) × (m ≡ err e))
Result-cases (ok a) = inl (a, refl)
Result-cases (err e) = inr (e, refl)

-- A result, and whether the token behind was its value.
abbrev pub tagged {ℓ} : {A : Type ℓ} → Bool → Result A → Result (A × Bool)
tagged taken (ok a) = ok (a, taken)
tagged taken (err e) = err e

pub tagged-ok {ℓ} :
    {A : Type ℓ} (m : Result A) (d : A) (b taken : Bool) → tagged b m ≡ ok (d, taken) → m ≡ ok d
tagged-ok (ok x) d b taken h = ground arith
tagged-ok (err e) d b taken h = cc
