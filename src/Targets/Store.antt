-- ===== src/Targets/Store.antt =====
-- `TargetStore` of odoo_sheller/targets.py. The file is read whole before an operation and written
-- whole after it, and nothing is awaited in between; so an operation is a function on the file.
use odoo_sheller.Common.{
  String, ◌⊎◌, inl, inr, Bool, true, not, ◌&&◌, Option, none, some, List, [], ◌∷◌, ◌++◌, map,
  if◌then◌else◌, ◌==◌, string_eq, nat_eq, is_some, length, keep, contains, lookup, starts_with,
  concat, skip,
}
use odoo_sheller.Recipe.Words.{is_empty, Result, err, ok, Python}
use odoo_sheller.Recipe.Parse.{parse_access}
use odoo_sheller.Recipe.Launching.{parse_launch}
use odoo_sheller.Targets.{
  OdooshEntry, SshEntry, Cards, File, holds, Problem, no_card, no_name, wrong_stage, no_such_field,
  wrong_recipe, Wording, is_stage, text_or_empty, build_name, read_file, checked_name, OdooshFields,
  checked_odoosh,
}

abbrev pub odoosh_prefix : String
odoosh_prefix = "odoosh-"

abbrev pub ssh_prefix : String
ssh_prefix = "ssh-"

-- What the API calls a card.
pub data Card : Type 0 where
  odoosh_card : String → String → OdooshEntry → Card
  ssh_card : SshEntry → Card

-- `_card`
unfoldable pub card_of : OdooshEntry → Card
card_of e = odoosh_card (concat (odoosh_prefix ∷ e.build ∷ [])) (build_name e) e

abbrev pub find_build : String → List OdooshEntry → Option OdooshEntry
find_build build [] = none
find_build build (e ∷ es) = if e.build == build then some e else find_build build es

abbrev pub find_ssh : String → List SshEntry → Option SshEntry
find_ssh id [] = none
find_ssh id (e ∷ es) = if e.id == id then some e else find_ssh id es

-- `_build_of`
unfoldable pub build_of : String → Option String
build_of id = if starts_with id odoosh_prefix then some (skip 7 id) else none

-- `list`
unfoldable pub list_cards : File → Problem ⊎ List Card
list_cards f = elim (read_file f) [
  | inl p ↦ inl p
  | inr c ↦ inr (map card_of c.odoosh ++ map ssh_card c.ssh)
]

abbrev get_odoosh : Cards → Option String → Problem ⊎ Card
get_odoosh c none = inl no_card
get_odoosh c (some build) = elim (find_build build c.odoosh) [
  | none ↦ inl no_card
  | some e ↦ inr (card_of e)
]

-- `get`
unfoldable pub get_card : File → String → Problem ⊎ Card
get_card f id = elim (read_file f) [
  | inl p ↦ inl p
  | inr c ↦
      if starts_with id ssh_prefix
      then elim (find_ssh id c.ssh) [ none ↦ inl no_card | some e ↦ inr (ssh_card e) ]
      else get_odoosh c (build_of id)
]

-- The fields of a change, by key; a field may be null.
abbrev pub Fields : Type 0
Fields = List (String × Option String)

-- `{**entry, **fields}[key]`
abbrev pub field : String → Fields → Option String → Option String
field key fields old = elim (lookup key fields) [ none ↦ old | some v ↦ v ]

abbrev pub only_keys : List String → Fields → Bool
only_keys keys [] = true
only_keys keys ((k, v) ∷ rest) = contains keys k && only_keys keys rest

-- The first entry of the build is exchanged.
unfoldable pub replace_build : String → OdooshEntry → List OdooshEntry → List OdooshEntry
replace_build build new [] = []
replace_build build new (e ∷ es) =
    if e.build == build then new ∷ es else e ∷ replace_build build new es

unfoldable pub replace_ssh : String → SshEntry → List SshEntry → List SshEntry
replace_ssh id new [] = []
replace_ssh id new (e ∷ es) = if e.id == id then new ∷ es else e ∷ replace_ssh id new es

module _ (w : Wording) (py : Python) where
  abbrev pub blank : Option String → Bool
  blank name = w.strip (text_or_empty name) == ""

  abbrev pub known : Option OdooshEntry → (OdooshEntry → Option String) → Option String
  known none f = none
  known (some e) f = f e

  -- `add_odoosh`
  unfoldable pub add_odoosh :
      String → String → Option String → Option String → File → Problem ⊎ (File × Card)
  add_odoosh build host name stage f = elim (read_file f) [
    | inl p ↦ inl p
    | inr c ↦
        let old = find_build build c.odoosh in
        let fields : OdooshFields w = record {
          name = if blank name then known old (λ e. e.name) else name;
          build = some build;
          host = some host;
          stage = if is_some stage then stage else known old (λ e. e.stage);
        } in
        elim (checked_odoosh w c.odoosh fields none) [
          | inl p ↦ inl p
          | inr e ↦ inr (
            holds (record c { odoosh = e ∷ keep (λ o. not (o.build == build)) c.odoosh }),
            card_of e,
          )
        ]
  ]

  abbrev pub recipe_of {ℓ} : {A : Type ℓ} → (String → Result A) → Option String → Problem ⊎ String
  recipe_of parse none = inl (wrong_recipe is_empty)
  recipe_of parse (some text) = elim (parse text) [ ok a ↦ inr text | err r ↦ inl (wrong_recipe r) ]

  abbrev pub known_stage : Option String → Problem ⊎ String
  known_stage none = inl wrong_stage
  known_stage (some s) = if is_stage s then inr s else inl wrong_stage

  abbrev pub other_names : List SshEntry → Option String → List String
  other_names [] own = []
  other_names (e ∷ es) own =
      let rest = other_names es own in
      if elim own [ none ↦ true | some o ↦ not (e.id == o) ] then e.name ∷ rest else rest

  -- `_checked_ssh`; `id` is the id that the entry gets
  unfoldable pub checked_ssh :
      List SshEntry
      → String
      → Option String
      → Option String
      → Option String
      → Option String
      → Option String
      → Problem ⊎ SshEntry
  checked_ssh es id name access launch stage own =
      if blank name
      then inl no_name
      else elim (checked_name w (text_or_empty name) (other_names es own)) [
        | inl p ↦ inl p
        | inr n ↦ elim (known_stage stage) [
          | inl p ↦ inl p
          | inr s ↦ elim (recipe_of (parse_access py) access) [
            | inl p ↦ inl p
            | inr a ↦ elim (recipe_of (parse_launch py) launch) [
              | inl p ↦ inl p
              | inr l ↦ inr (record { id = id; name = n; access = a; launch = l; stage = s })
            ]
          ]
        ]
      ]

  -- `add_ssh`; `fresh` is drawn by `secrets.token_hex`
  unfoldable pub add_ssh :
      String → String → String → String → String → File → Problem ⊎ (File × Card)
  add_ssh fresh name access launch stage f = elim (read_file f) [
    | inl p ↦ inl p
    | inr c ↦
        let id = concat (ssh_prefix ∷ fresh ∷ []) in
        elim (checked_ssh c.ssh id (some name) (some access) (some launch) (some stage) none) [
          | inl p ↦ inl p
          | inr e ↦ inr (holds (record c { ssh = e ∷ c.ssh }), ssh_card e)
        ]
  ]

  abbrev pub ssh_fields : List String
  ssh_fields = "name" ∷ "access" ∷ "launch" ∷ "stage" ∷ []

  abbrev pub odoosh_fields : List String
  odoosh_fields = "name" ∷ "build" ∷ "host" ∷ "stage" ∷ []

  abbrev pub update_ssh : Cards → String → Fields → Option SshEntry → Problem ⊎ (File × Card)
  update_ssh c id fields none = inl no_card
  update_ssh c id fields (some old) =
      if not (only_keys ssh_fields fields)
      then inl no_such_field
      else elim (checked_ssh c.ssh id (field "name" fields (some old.name))
          (field "access" fields (some old.access)) (field "launch" fields (some old.launch))
          (field "stage" fields (some old.stage)) (some id)) [
            | inl p ↦ inl p
            | inr e ↦ inr (holds (record c { ssh = replace_ssh id e c.ssh }), ssh_card e)
          ]

  abbrev pub merged : Fields → OdooshEntry → OdooshFields w
  merged fields old = record {
    name = field "name" fields old.name;
    build = field "build" fields (some old.build);
    host = field "host" fields (some old.host);
    stage = field "stage" fields old.stage;
  }

  abbrev pub update_odoosh : Cards → String → Fields → Option OdooshEntry → Problem ⊎ (File × Card)
  update_odoosh c build fields none = inl no_card
  update_odoosh c build fields (some old) =
      if not (only_keys odoosh_fields fields)
      then inl no_such_field
      else elim (checked_odoosh w c.odoosh (merged fields old) (some build)) [
        | inl p ↦ inl p
        | inr e ↦ inr (holds (record c { odoosh = replace_build build e c.odoosh }), card_of e)
      ]

  -- `update`
  unfoldable pub update : String → Fields → File → Problem ⊎ (File × Card)
  update id fields f = elim (read_file f) [
    | inl p ↦ inl p
    | inr c ↦
        if starts_with id ssh_prefix
        then update_ssh c id fields (find_ssh id c.ssh)
        else elim (build_of id) [
          | none ↦ inl no_card
          | some build ↦ update_odoosh c build fields (find_build build c.odoosh)
        ]
  ]

-- `delete`
abbrev pub delete_ssh : Cards → String → Problem ⊎ File
delete_ssh c id =
    let kept = keep (λ e. not (e.id == id)) c.ssh in
    if length kept == length c.ssh then inl no_card else inr (holds (record c { ssh = kept }))

abbrev pub delete_build : Cards → String → Problem ⊎ File
delete_build c build =
    let kept = keep (λ e. not (e.build == build)) c.odoosh in
    if length kept == length c.odoosh then inl no_card else inr (holds (record c { odoosh = kept }))

unfoldable pub delete : String → File → Problem ⊎ File
delete id f = elim (read_file f) [
  | inl p ↦ inl p
  | inr c ↦
      if starts_with id ssh_prefix
      then delete_ssh c id
      else elim (build_of id) [ none ↦ inl no_card | some build ↦ delete_build c build ]
]
