-- ===== src/Targets.antt =====
-- odoo_sheller/targets.py: the cards that a person writes down, and what a field of one may hold.
-- The file is one of three things: missing, refused by `_read`, or read.
pub mod Store
pub mod Tidy
pub mod Keeping
use odoo_sheller.Common.{
  String, ◌≡◌, refl, ◌≢◌, ◌⊎◌, inl, inr, Bool, false, not, ◌&&◌, ◌||◌, Option, none, some, List, [],
  map, arith, eq_iff, ltb, if◌then◌else◌, ◌==◌, string_eq, nat_eq, any, keep, text_length,
}
use odoo_sheller.Recipe.Words.{Reason, is_ssh_name}

pub record OdooshEntry : Type 0 where
  pub name : Option String
  pub build : String
  pub host : String
  pub stage : Option String

pub record SshEntry : Type 0 where
  pub id : String
  pub name : String
  pub access : String
  pub launch : String
  pub stage : String

-- What `_read` returns.
pub record Cards : Type 0 where
  pub odoosh : List OdooshEntry
  pub ssh : List SshEntry

pub data File : Type 0 where
  missing refused : File
  holds : Cards → File

pub data Problem : Type 0 where
  unusable no_card build_taken name_taken long_name no_name wrong_stage no_such_field : Problem
  wrong_word wrong_host : Problem
  wrong_recipe : Reason → Problem

-- `str.strip`, `str.casefold` and `str.isprintable`
pub record Wording : Type 0 where
  pub strip : String → String
  pub casefold : String → String
  pub isprintable : String → Bool

-- `odoosh_stage`
abbrev pub says_production : Option String → Bool
says_production none = false
says_production (some s) = s == "production"

abbrev or_else : Option String → Option String → Option String
or_else none later = later
or_else (some s) later = if s == "" then later else some s

unfoldable pub odoosh_stage : Option String → Option String → Option String
odoosh_stage declared reported =
    if says_production declared || says_production reported
    then some "production"
    else or_else reported declared

stage-production :
    (declared reported : Option String)
    → says_production (odoosh_stage declared reported)
      ≡ (says_production declared || says_production reported)
unfolding odoosh_stage
stage-production none none = refl
stage-production none (some r) = ground arith
stage-production (some d) none = ground arith
stage-production (some d) (some r) = ground arith

-- A build that says it is production, or whose card says so, is opened as production, and no other;
-- otherwise what the build reports stands, and the card's word where it reports nothing.
pub odoosh_stage-strict :
    (declared reported : Option String)
    → (says_production (odoosh_stage declared reported)
        ≡ (says_production declared || says_production reported))
      × ((s : String)
          → s ≢ ""
          → says_production declared ≡ false
          → odoosh_stage declared (some s) ≡ some s)
      × (says_production declared ≡ false → odoosh_stage declared none ≡ declared)
unfolding odoosh_stage
odoosh_stage-strict declared reported = (
  stage-production declared reported,
  λ s n d. ground (arith, eq_iff s "production", eq_iff s ""),
  λ d. ground arith,
)

-- `STAGES`
abbrev pub is_stage : String → Bool
is_stage s = s == "production" || s == "staging"

-- `fields.get("name") or ""`
abbrev pub text_or_empty : Option String → String
text_or_empty none = ""
text_or_empty (some s) = s

-- `_build_name`
unfoldable pub build_name : OdooshEntry → String
build_name e = let name = text_or_empty e.name in if name == "" then e.build else name

-- `_read`
abbrev pub read_file : File → Problem ⊎ Cards
read_file missing = inr (record { odoosh = []; ssh = [] })
read_file refused = inl unusable
read_file (holds c) = inr c

module _ (w : Wording) where
  abbrev pub same_name : String → String → Bool
  same_name a b = w.casefold a == w.casefold b

  -- `_checked_name`
  unfoldable pub checked_name : String → List String → Problem ⊎ String
  checked_name name taken =
      let short = w.strip name in
      if ltb 60 (text_length short) || not (w.isprintable short)
      then inl long_name
      else if any (λ other. same_name other short) taken
      then inl name_taken
      else inr short

  -- The fields of an odoo.sh card; a key that was sent as null is absent.
  pub record OdooshFields : Type 0 where
    pub name : Option String
    pub build : Option String
    pub host : Option String
    pub stage : Option String

  abbrev pub is_own : Option String → String → Bool
  is_own none b = false
  is_own (some own) b = b == own

  -- The cards that a new name is compared with.
  abbrev pub other_builds : List OdooshEntry → String → Option String → List OdooshEntry
  other_builds es build own = keep (λ e. not (e.build == build || is_own own e.build)) es

  abbrev pub moves_onto : List OdooshEntry → String → Option String → Bool
  moves_onto es build none = false
  moves_onto es build (some own) = not (build == own) && any (λ e. e.build == build) es

  -- The name of the entry, or none if the card is called by its build.
  abbrev pub name_for : List OdooshEntry → String → String → Problem ⊎ Option String
  name_for others build name =
      if not (w.strip name == "")
      then elim (checked_name name (map build_name others)) [ inl p ↦ inl p | inr n ↦ inr (some n) ]
      else if any (λ e. same_name (build_name e) build) others
      then inl name_taken
      else inr none

  abbrev pub stage_for : Option String → Problem ⊎ Option String
  stage_for none = inr none
  stage_for (some s) = if is_stage s then inr (some s) else inl wrong_stage

  abbrev pub ssh_word : Option String → Problem → Problem ⊎ String
  ssh_word none p = inl p
  ssh_word (some s) p = if is_ssh_name s then inr s else inl p

  -- `_checked_odoosh`
  unfoldable pub checked_odoosh :
      List OdooshEntry → OdooshFields → Option String → Problem ⊎ OdooshEntry
  checked_odoosh es f own = elim (ssh_word f.build wrong_word) [
    | inl p ↦ inl p
    | inr build ↦ elim (ssh_word f.host wrong_host) [
      | inl p ↦ inl p
      | inr host ↦
          if moves_onto es build own
          then inl build_taken
          else elim (name_for (other_builds es build own) build (text_or_empty f.name)) [
            | inl p ↦ inl p
            | inr name ↦ elim (stage_for f.stage) [
              | inl p ↦ inl p
              | inr stage ↦ inr (record { name = name; build = build; host = host; stage = stage })
            ]
          ]
    ]
  ]
