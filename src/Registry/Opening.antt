-- ===== src/Registry/Opening.antt =====
-- Where a session is opened: the first half of `Registry.open` in odoo_sheller/registry.py, up to the
-- target. The probes of odoo_sheller/discovery.py and the files are arguments.
pub mod Placed
use odoo_sheller.Common.{
  String, ◌⊎◌, inl, inr, Bool, not, ◌||◌, Option, none, some, List, if◌then◌else◌, ◌==◌, string_eq,
  nat_eq, is_some,
}
use odoo_sheller.Recipe.Words.{err, ok, Python}
use odoo_sheller.Recipe.{Access, Launch}
use odoo_sheller.Recipe.Parse.{parse_access}
use odoo_sheller.Recipe.Launching.{parse_launch}
use odoo_sheller.Transport.{docker, odoosh, ssh, Target}
use odoo_sheller.Targets.{OdooshEntry, SshEntry, File, Problem, no_card, odoosh_stage}
use odoo_sheller.Targets.Store.{odoosh_card, ssh_card, get_card}
use odoo_sheller.Journal.{Line, Place, target_from_records}
use odoo_sheller.Journal.Files.{find_journal}

-- What a probe answers.
pub record DockerProbe : Type 0 where
  pub usable : Bool
  pub odoo_bin : Option String

pub record SshProbe : Type 0 where
  pub usable : Bool
  pub db_name : Option String

pub record BuildProbe : Type 0 where
  pub supported : Bool
  pub stage : Option String
  pub db_name : Option String

pub record World : Type 0 where
  pub py : Python
  pub probe : String → DockerProbe
  pub probe_ssh : Access → Launch → SshProbe
  pub probe_odoosh : String → String → BuildProbe
  -- the cards, and the journals: the names that `glob` finds and what the files say
  pub cards : File
  pub journals : List String
  pub lines_of : String → List Line

pub data OpenError : Type 0 where
  value_error key_error targets_error recipe_error : OpenError

-- The arguments of `open` that say where.
pub record Asked : Type 0 where
  pub container : Option String
  pub database : Option String
  pub odoo_bin : Option String
  pub replace : Option String
  pub target_id : Option String

-- A text that is there and not empty.
abbrev pub told : Option String → Option String
told none = none
told (some s) = if s == "" then none else some s

abbrev pub or_told : Option String → Option String → Option String
or_told a b = elim (told a) [ none ↦ b | some s ↦ some s ]

-- `target_of_past_session`
unfoldable pub target_of_past_session : World → String → Option Place
target_of_past_session w id = elim (find_journal w.journals id) [
  | none ↦ none
  | some name ↦ target_from_records (w.lines_of name)
]

abbrev pub docker_target_of : String → String → String → Target
docker_target_of container database odoo_bin = record {
  kind = docker;
  container = some container;
  database = some database;
  odoo_bin = some odoo_bin;
  build = none;
  host = none;
  stage = none;
  label = none;
  access = none;
  launch = none;
  card_id = none;
}

-- `_docker_target`: odoo-bin is found where it is not said.
unfoldable pub docker_target :
    World → Option String → Option String → Option String → OpenError ⊎ Target
docker_target w container database odoo_bin = elim (told container) [
  | none ↦ inl value_error
  | some c ↦ elim (told database) [
    | none ↦ inl value_error
    | some d ↦ elim (told odoo_bin) [
      | some b ↦ inr (docker_target_of c d b)
      | none ↦
          let found = w.probe c in
          if not found.usable then inl value_error else (elim (told found.odoo_bin) [
            | none ↦ inl value_error
            | some b ↦ inr (docker_target_of c d b)
          ])
    ]
  ]
]

-- `_ssh_target`; the card's stage is the target's.
unfoldable pub ssh_target : World → SshEntry → OpenError ⊎ Target
ssh_target w e = elim (parse_access w.py e.access) [
  | err p ↦ inl recipe_error
  | ok access ↦ elim (parse_launch w.py e.launch) [
    | err p ↦ inl recipe_error
    | ok launch ↦
        let probe = w.probe_ssh access launch in
        if not probe.usable
        then inl value_error
        else inr (record {
          kind = ssh;
          container = none;
          database = or_told launch.database probe.db_name;
          odoo_bin = none;
          build = none;
          host = some access.host;
          stage = some e.stage;
          label = some e.name;
          access = some access;
          launch = some launch;
          card_id = some e.id;
        })
  ]
]

-- `_odoosh_target`; `id` is the card's.
unfoldable pub odoosh_target : World → String → OdooshEntry → OpenError ⊎ Target
odoosh_target w id e =
    let probe = w.probe_odoosh e.build e.host in
    if not probe.supported
    then inl value_error
    else inr (record {
      kind = odoosh;
      container = none;
      database = probe.db_name;
      odoo_bin = none;
      build = some e.build;
      host = some e.host;
      stage = odoosh_stage e.stage probe.stage;
      label = none;
      access = none;
      launch = none;
      card_id = some id;
    })

-- The `except KeyError` of `_remote_target`; what else the store raises goes on.
abbrev store_error : Problem → OpenError
store_error no_card = key_error
store_error _ = targets_error

-- `_remote_target`
unfoldable pub remote_target : World → String → OpenError ⊎ Target
remote_target w id = elim (get_card w.cards id) [
  | inl p ↦ inl (store_error p)
  | inr (ssh_card e) ↦ ssh_target w e
  | inr (odoosh_card card_id name e) ↦ odoosh_target w card_id e
]

-- What `replace` fills in: the place where a session of a local container ran.
unfoldable pub replaced : World → String → Asked → OpenError ⊎ Asked
replaced w id a = elim (target_of_past_session w id) [
  | none ↦ inl key_error
  | some p ↦
      if not (p.target_kind == "docker") || not (is_some (told p.odoo_bin))
      then inl value_error
      else inr (record a {
        container = or_told a.container (some p.container);
        database = or_told a.database (some p.database);
        odoo_bin = or_told a.odoo_bin p.odoo_bin;
      })
]

-- `open`, up to the target
unfoldable pub open_target : World → Asked → OpenError ⊎ Target
open_target w a =
    let local : Asked → OpenError ⊎ Target =
      λ b. docker_target w b.container b.database b.odoo_bin in
    elim (told a.target_id) [
      | some id ↦
          if is_some (told a.replace)
            || is_some (told a.container)
            || is_some (told a.database)
            || is_some (told a.odoo_bin)
          then inl value_error
          else remote_target w id
      | none ↦ elim (told a.replace) [
        | none ↦ local a
        | some past ↦ elim (replaced w past a) [ inl e ↦ inl e | inr b ↦ local b ]
      ]
    ]
