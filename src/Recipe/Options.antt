-- ===== src/Recipe/Options.antt =====
-- The ssh options that odoo_sheller/recipe.py takes on an Access line: a whitelist.
use odoo_sheller.Common.{
  ℕ, code, String, Bool, true, false, not, ◌&&◌, ◌||◌, Option, none, some, List, [], ◌∷◌, ◌++◌, leb,
  if◌then◌else◌, ◌==◌, string_eq, nat_eq, contains, is_alnum, has_part, skip, digits_value,
}
use odoo_sheller.Recipe.Words.{
  needs_value, option_refused, bad_timeout, bad_identities, bad_batch, bad_form, Result, err, ok,
  ◌>>=◌, Python, is_number, port_of, user_of, key_of, jump_of, tagged,
}

-- `_Collected`
pub record Collected : Type 0 where
  pub users : List String
  pub ports : List ℕ
  pub keys : List String
  pub jump : Option String
  pub timeout : Option ℕ
  pub identities_only : Option String

abbrev pub nothing_yet : Collected
nothing_yet = record {
  users = [];
  ports = [];
  keys = [];
  jump = none;
  timeout = none;
  identities_only = none;
}

-- The keys of `WHY_NOT`
abbrev pub why_not : List String
why_not =
    "proxycommand" ∷ "localcommand" ∷ "permitlocalcommand" ∷ "stricthostkeychecking"
    ∷ "userknownhostsfile" ∷ []

-- `ALLOWED_OPTIONS`, each key with what `_apply_named` does for it
pub data OptionKey : Type 0 where
  port_key user_key identity_key jump_key timeout_key identities_key batch_key : OptionKey

unfoldable pub allowed_option : String → Option OptionKey
allowed_option key =
    if key == "port"
    then some port_key
    else if key == "user"
    then some user_key
    else if key == "identityfile"
    then some identity_key
    else if key == "proxyjump"
    then some jump_key
    else if key == "connecttimeout"
    then some timeout_key
    else if key == "identitiesonly"
    then some identities_key
    else if key == "batchmode"
    then some batch_key
    else none

-- `ConnectTimeout`: a number of seconds
abbrev pub timeout_of : String → Result ℕ
timeout_of value =
    let n = digits_value 0 value in
    if is_number 3 value && leb 1 n && leb n 300 then ok n else err bad_timeout

abbrev pub yes_or_no : String → Result String
yes_or_no value = if value == "yes" || value == "no" then ok value else err bad_identities

module _ (py : Python) where
  -- The branch of `_apply_named` for an allowed option.
  unfoldable pub apply_key : OptionKey → String → Collected → Result Collected
  apply_key port_key value c = do n ← port_of value; ok (record c { ports = c.ports ++ n ∷ [] })
  apply_key user_key value c = do u ← user_of value; ok (record c { users = c.users ++ u ∷ [] })
  apply_key identity_key value c = do k ← key_of py value; ok (record c { keys = c.keys ++ k ∷ [] })
  apply_key jump_key value c = do j ← jump_of value; ok (record c { jump = some j })
  apply_key timeout_key value c = do n ← timeout_of value; ok (record c { timeout = some n })
  apply_key identities_key value c = do
    b ← yes_or_no (py.lower value)
    ok (record c { identities_only = some b })
  apply_key batch_key value c =
      if py.lower value == "yes" || py.lower value == "true" then ok c else err bad_batch

  -- `_apply_named`
  unfoldable pub apply_named : String → String → Collected → Result Collected
  apply_named name value c =
      let key = py.lower name in
      if contains why_not key || has_part "forward" key
      then err option_refused
      else elim (allowed_option key) [ none ↦ err option_refused | some k ↦ apply_key k value c ]

  abbrev pub strip_left : String → String
  strip_left String.[] = ""
  strip_left (String.◌∷◌ c s) = if py.is_space (code c) then strip_left s else String.◌∷◌ c s

  abbrev pub strip_right : String → String
  strip_right String.[] = ""
  strip_right (String.◌∷◌ c s) =
      let rest = strip_right s in
      if py.is_space (code c) && rest == "" then "" else String.◌∷◌ c rest

  -- The run of letters and digits in front, and what is behind it.
  abbrev pub name_run : String → String × String
  name_run String.[] = ("", "")
  name_run (String.◌∷◌ c s) =
      let later = name_run s in
      if is_alnum (code c) then (String.◌∷◌ c later.0, later.1) else ("", String.◌∷◌ c s)

  -- What follows the name: `=`, or white space, and then the value.
  abbrev pub value_of : String → Option String
  value_of String.[] = none
  value_of (String.◌∷◌ c s) =
      if py.is_space (code c)
      then elim (strip_left s) [
        | String.[] ↦ some ""
        | String.◌∷◌ d t ↦
            if code d == b'='
            then some (strip_right (strip_left t))
            else some (strip_right (String.◌∷◌ d t))
      ]
      else if code c == b'='
      then some (strip_right (strip_left s))
      else none

  -- `_parse_dash_o`. A name with no value behind it and one with an empty value are refused alike.
  unfoldable pub parse_dash_o : String → Collected → Result Collected
  parse_dash_o setting c =
      let (name, rest) = name_run (strip_left setting) in
      if name == ""
      then err bad_form
      else if rest == ""
      then err needs_value
      else elim (value_of rest) [
        | none ↦ err bad_form
        | some value ↦ if value == "" then err needs_value else apply_named name value c
      ]

  -- The letter of an option that takes a value.
  abbrev pub apply_letter : ℕ → String → Collected → Result Collected
  apply_letter flag value c =
      if flag == b'o'
      then parse_dash_o value c
      else if flag == b'i'
      then (do k ← key_of py value; ok (record c { keys = c.keys ++ k ∷ [] }))
      else if flag == b'p'
      then (do n ← port_of value; ok (record c { ports = c.ports ++ n ∷ [] }))
      else if flag == b'l'
      then (do u ← user_of value; ok (record c { users = c.users ++ u ∷ [] }))
      else (do j ← jump_of value; ok (record c { jump = some j }))

  abbrev pub takes_value : ℕ → Bool
  takes_value f = f == b'o' || f == b'i' || f == b'p' || f == b'l' || f == b'J'

  -- The second character of a token, 0 where there is none.
  abbrev pub flag_of : String → ℕ
  flag_of token = elim (skip 1 token) [ String.[] ↦ 0 | String.◌∷◌ c s ↦ code c ]

  -- The value of a letter that has none attached is the token behind it.
  abbrev pub apply_following : ℕ → Option String → Collected → Result (Collected × Bool)
  apply_following flag none c = err needs_value
  apply_following flag (some value) c = tagged true (apply_letter flag value c)

  -- `_parse_option` on a token and the one behind it; the answer says whether that one was the
  -- value. The letters of `SHORT_WHY_NOT` and every other letter are refused.
  unfoldable pub parse_option : String → Option String → Collected → Result (Collected × Bool)
  parse_option token following c =
      let flag = flag_of token in
      let attached = skip 2 token in
      if token == "-T"
      then ok (c, false)
      else if takes_value flag
      then (if not (attached == "")
          then tagged false (apply_letter flag attached c)
          else apply_following flag following c)
      else err option_refused
