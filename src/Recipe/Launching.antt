-- ===== src/Recipe/Launching.antt =====
-- `parse_launch` of odoo_sheller/recipe.py.
pub mod Shape
use odoo_sheller.Recipe.{Launch}
use odoo_sheller.Common.{
  String, Bool, false, not, ◌&&◌, ◌||◌, Option, none, some, List, [], ◌∷◌, ltb, if◌then◌else◌, ◌==◌,
  string_eq, nat_eq, contains, starts_with, cut_from, skip, text_length,
}
use odoo_sheller.Recipe.Words.{
  relative_launch, no_shell, Result, err, ok, ◌>>=◌, Python, split_text,
}

abbrev next_or {ℓ} : {A : Type ℓ} → A → List A → A
next_or d [] = d
next_or d (a ∷ rest) = a

abbrev first? : List String → Option String
first? [] = none
first? (a ∷ rest) = some a

-- `token.split("=", 1)[1]`
abbrev behind_equals : String → String
behind_equals token = elim (cut_from b'=' token).1 [ none ↦ "" | some v ↦ v ]

-- `-X` with its value attached, and not a long option
abbrev attached_to : String → String → Bool
attached_to flag token = starts_with token flag && not (starts_with token "--")

-- `_database_flag`
unfoldable pub database_flag : List String → Option String
database_flag [] = none
database_flag (token ∷ rest) =
    let later = database_flag rest in
    if token == "-d" || token == "--database"
    then some (next_or "" rest)
    else if starts_with token "--database="
    then some (behind_equals token)
    else if attached_to "-d" token
    then some (skip 2 token)
    else later

-- `_config_flag`
unfoldable pub config_flag : List String → Option String
config_flag [] = none
config_flag (token ∷ rest) =
    let later = config_flag rest in
    if token == "-c" || token == "--config"
    then first? rest
    else if starts_with token "--config="
    then some (behind_equals token)
    else if attached_to "-c" token && ltb 2 (text_length token)
    then some (skip 2 token)
    else later

-- `_workers_flag`
unfoldable pub workers_flag : List String → Option String
workers_flag [] = none
workers_flag (token ∷ rest) =
    let later = workers_flag rest in
    if token == "--workers"
    then first? rest
    else if starts_with token "--workers="
    then some (behind_equals token)
    else later

-- `_port_flag`
unfoldable pub port_flag : List String → Option String
port_flag [] = none
port_flag (token ∷ rest) =
    let later = port_flag rest in
    if token == "--http-port" || token == "--xmlrpc-port" || token == "-p"
    then first? rest
    else if starts_with token "--http-port=" || starts_with token "--xmlrpc-port="
    then some (behind_equals token)
    else if attached_to "-p" token && ltb 2 (text_length token)
    then some (skip 2 token)
    else later

-- Where the subcommand is: the script that it follows, and what is behind it.
pub record Found : Type 0 where
  pub odoo_bin : String
  pub after : List String

abbrev pub script_of : Option String → String → Option String
script_of none before = if starts_with before "-" then none else some before
script_of (some second) before =
    if starts_with before "--addons-path="
    then (if starts_with second "-" then none else some second)
    else if starts_with before "-"
    then none
    else some before

-- The loop of `_find_shell` behind the tokens `second` and `before`.
unfoldable pub shell_from : Option String → String → List String → Option Found
shell_from second before [] = none
shell_from second before (token ∷ rest) =
    let later = shell_from (some before) token rest in
    if token == "shell"
    then elim (script_of second before) [
      | none ↦ later
      | some script ↦ some (record { odoo_bin = script; after = rest })
    ]
    else later

-- `_find_shell`
unfoldable pub find_shell : List String → Option Found
find_shell [] = none
find_shell (token ∷ rest) = shell_from none token rest

abbrev pub filled : Option String → Option String
filled none = none
filled (some s) = if s == "" then none else some s

abbrev pub is_zero : Option String → Bool
is_zero none = false
is_zero (some s) = s == "0"

-- `_parse_launch` on the tokens
unfoldable pub launch_of_tokens : List String → Result Launch
launch_of_tokens [] = err relative_launch
launch_of_tokens (head ∷ rest) =
    if not (starts_with head "/") then err relative_launch else elim (find_shell (head ∷ rest)) [
      | none ↦ err no_shell
      | some f ↦ ok (record {
        argv = head ∷ rest;
        database = filled (database_flag f.after);
        config = config_flag f.after;
        odoo_bin = f.odoo_bin;
        http_off =
            contains f.after "--no-http"
            || contains f.after "--no-xmlrpc"
            || is_zero (workers_flag f.after);
        http_port = port_flag f.after;
      })
    ]

-- `parse_launch`
unfoldable pub parse_launch : Python → String → Result Launch
parse_launch py text = do tokens ← split_text py text; launch_of_tokens tokens
