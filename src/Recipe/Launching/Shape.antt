-- ===== src/Recipe/Launching/Shape.antt =====
-- What a Launch line that odoo_sheller/recipe.py accepts looks like.
use odoo_sheller.Common.{
  String, ◌≡◌, true, false, ◌||◌, Option, none, some, List, [], ◌∷◌, ◌++◌, string_eq, nat_eq,
  contains, starts_with,
}
use odoo_sheller.Recipe.{Launch}
use odoo_sheller.Recipe.Launching.{
  database_flag, config_flag, workers_flag, port_flag, Found, filled, is_zero,
}

abbrev before_too : Option String → List String → List String
before_too none xs = xs
before_too (some s) xs = s ∷ xs

-- Behind a script, before `shell`: nothing, or one `--addons-path=…`.
abbrev pub IsGap : List String → Type 0
IsGap [] = Unit
IsGap (path ∷ []) = starts_with path "--addons-path=" ≡ true
IsGap (path ∷ word ∷ words) = ⊥

abbrev pub EndsIn : List String → String → Type 0
EndsIn words script =
    (earlier : List String) × (gap : List String) × (words ≡ earlier ++ script ∷ gap) × IsGap gap

-- The first `shell` behind a script ends what stands before it.
abbrev IsSplit : List String → List String → Found → Type 0
IsSplit earlier rest f =
    (mid : List String) × (rest ≡ mid ++ "shell" ∷ f.after)
    × EndsIn (earlier ++ mid) f.odoo_bin
    × (starts_with f.odoo_bin "-" ≡ false)

-- What holds of the tokens of an accepted Launch line: the first is an absolute path, the script
-- stands just before `shell`, and the flags are those behind it.
abbrev pub IsLaunch : Launch → Type 0
IsLaunch l =
    (before : List String) × (after : List String) × (l.argv ≡ before ++ "shell" ∷ after)
    × EndsIn before l.odoo_bin
    × (starts_with l.odoo_bin "-" ≡ false)
    × ((head : String) × (rest : List String) × (l.argv ≡ head ∷ rest)
        × (starts_with head "/" ≡ true))
    × (l.database ≡ filled (database_flag after))
    × (l.config ≡ config_flag after)
    × (l.http_port ≡ port_flag after)
    × (l.http_off ≡ (
        contains after "--no-http" || contains after "--no-xmlrpc" || is_zero (workers_flag after)))
