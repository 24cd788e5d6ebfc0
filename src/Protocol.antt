-- ===== src/Protocol.antt =====
-- odoo_sheller/protocol.py: what a run is called. JSON itself is Python's.
use odoo_sheller.Common.{
  String, Option, none, some, List, [], ◌∷◌, ◌++◌, if◌then◌else◌, ◌==◌, string_eq, nat_eq, concat,
  join,
}

-- A part that is `None` or empty is left out.
abbrev pub given : Option String → List String
given none = []
given (some s) = if s == "" then [] else s ∷ []

unfoldable pub spec_of : String → Option String → Option String → Option String → String
spec_of module_name test_class test_method params =
    let spec = join "." (given (some module_name) ++ given test_class ++ given test_method) in
    elim (given params) [ [] ↦ spec | p ∷ _ ↦ concat (spec ∷ "[" ∷ p ∷ "]" ∷ []) ]
