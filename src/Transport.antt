-- ===== src/Transport.antt =====
-- odoo_sheller/transport.py: where a session runs, and the command lines that reach it. The
-- processes themselves are the operating system's.
pub mod Lines
pub mod Destinations
use odoo_sheller.Common.{String, Bool, true, false, not, Option, none, some, ◌==◌, string_eq}
use odoo_sheller.Recipe.{Access, Launch}

-- `DOCKER`, `ODOOSH`, `SSH`
pub data TargetKind : Type 0 where
  docker odoosh ssh : TargetKind

pub record Target : Type 0 where
  pub kind : TargetKind
  pub container : Option String
  pub database : Option String
  pub odoo_bin : Option String
  pub build : Option String
  pub host : Option String
  pub stage : Option String
  pub label : Option String
  pub access : Option Access
  pub launch : Option Launch
  pub card_id : Option String

abbrev pub production : String
production = "production"

abbrev pub is_docker : TargetKind → Bool
is_docker docker = true
is_docker _ = false

-- `Target.name`, the identity slot
unfoldable pub target_name : Target → Option String
target_name t = elim t.kind [ odoosh ↦ t.build | ssh ↦ t.label | docker ↦ t.container ]

-- `Target.is_remote`
unfoldable pub is_remote : Target → Bool
is_remote t = not (is_docker t.kind)

-- `target.stage == PRODUCTION`
unfoldable pub on_production : Target → Bool
on_production t = elim t.stage [ none ↦ false | some s ↦ s == production ]
