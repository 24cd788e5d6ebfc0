-- ===== src/Registry/Opening/Placed.antt =====
-- What `Registry.open` of odoo_sheller/registry.py opens, and with which right a session there starts.
use odoo_sheller.Common.{
  String, ◌≡◌, sym, ap, ◌∙◌, ◌⊎◌, inl, inr, Bool, true, false, ◌||◌, Option, none, some, arith,
  ◌==◌, string_eq, nat_eq, Option-cases, is_some, sum-cases,
}
use odoo_sheller.Transport.{Target, is_docker, on_production}
use odoo_sheller.Targets.{OdooshEntry, SshEntry, says_production, odoosh_stage, odoosh_stage-strict}
use odoo_sheller.Targets.Store.{Card, odoosh_card, ssh_card, get_card}
use odoo_sheller.Registry.Opening.{
  World, OpenError, Asked, told, docker_target, ssh_target, odoosh_target, remote_target, replaced,
  open_target,
}
use odoo_sheller.Session.Records.{Owner}
use odoo_sheller.Session.Rights.{first_right, init}

docker_target-kind :
    (w : World) (c d b : Option String) (t : Target)
    → docker_target w c d b ≡ inr t
    → (is_docker t.kind ≡ true) × (on_production t ≡ false)
unfolding docker_target on_production
docker_target-kind w c d b t h = (ground (arith, h), ground (arith, h))

remote_target-kind :
    (w : World) (id : String) (t : Target)
    → remote_target w id ≡ inr t
    → (is_docker t.kind ≡ false) × (is_some t.card_id ≡ true)
unfolding remote_target ssh_target odoosh_target
remote_target-kind w id t h = (ground (arith, h), ground (arith, h))

-- Whether a card, or the build that it names, says production.
unfoldable pub says_so : World → Card → Bool
says_so w (ssh_card e) = e.stage == "production"
says_so w (odoosh_card card_id name e) =
    says_production e.stage || says_production (w.probe_odoosh e.build e.host).stage

on_production_lem : (t : Target) → on_production t ≡ says_production t.stage
unfolding on_production
on_production_lem t = ground arith

ssh_target-stage :
    (w : World) (e : SshEntry) (t : Target) → ssh_target w e ≡ inr t → t.stage ≡ some e.stage
unfolding ssh_target
ssh_target-stage w e t h = ground (arith, h)

odoosh_target-stage :
    (w : World) (id : String) (e : OdooshEntry) (t : Target)
    → odoosh_target w id e ≡ inr t
    → t.stage ≡ odoosh_stage e.stage (w.probe_odoosh e.build e.host).stage
unfolding odoosh_target
odoosh_target-stage w id e t h = ground (arith, h)

card_target : World → Card → OpenError ⊎ Target
card_target w (ssh_card e) = ssh_target w e
card_target w (odoosh_card card_id name e) = odoosh_target w card_id e

remote_target-card :
    (w : World) (id : String) (card : Card)
    → get_card w.cards id ≡ inr card
    → remote_target w id ≡ card_target w card
unfolding remote_target card_target
remote_target-card w id card h = ground (arith, h)

card_target-production :
    (w : World) (card : Card) (t : Target)
    → card_target w card ≡ inr t
    → on_production t ≡ says_so w card
unfolding card_target says_so
card_target-production w (ssh_card e) t h =
    on_production_lem t ∙ ap says_production (ssh_target-stage w e t h)
card_target-production w (odoosh_card card_id name e) t h =
    on_production_lem t
    ∙ ap says_production (odoosh_target-stage w card_id e t h)
    ∙ (odoosh_stage-strict e.stage (w.probe_odoosh e.build e.host).stage).0

production-first_right :
    (t : Target) (o : Option Owner) (allow : Option Bool) (switched : Bool) (fresh : String)
    → on_production t ≡ true
    → (init t o allow switched fresh).allow_commit ≡ false
unfolding init first_right
production-first_right t o allow switched fresh h = ground (arith, h)

local_kind :
    (w : World) (a : Asked) (t : Target)
    → told a.target_id ≡ none
    → open_target w a ≡ inr t
    → (is_docker t.kind ≡ true) × (on_production t ≡ false)
unfolding open_target
local_kind w a t none_told h = elim (Option-cases (told a.replace)) [
  | inl e ↦
      docker_target-kind w a.container a.database a.odoo_bin t (ground (arith, h, e, none_told))
  | inr (past, e) ↦ elim (sum-cases (replaced w past a)) [
    | inl (p, f) ↦ absurd (ground (arith, h, e, f, none_told))
    | inr (b, f) ↦
        docker_target-kind w b.container b.database b.odoo_bin t
          (ground (arith, h, e, f, none_told))
  ]
]

remote_opened :
    (w : World) (a : Asked) (t : Target) (id : String)
    → told a.target_id ≡ some id
    → open_target w a ≡ inr t
    → remote_target w id ≡ inr t
unfolding open_target
remote_opened w a t id given h = ground (arith, given, h)

-- Where a session is opened decides where it may write. Without the id of a card, also in place of a
-- past session, it is a local container and never production. With one it is never a local container;
-- it is on production exactly when the card says so or the build itself does, and there a session
-- starts without the right to commit, whoever opens it and whatever right they ask for.
pub open_target_lem :
    (w : World) (a : Asked) (t : Target)
    → open_target w a ≡ inr t
    → (told a.target_id ≡ none → (is_docker t.kind ≡ true) × (on_production t ≡ false))
      × ((id : String) (card : Card)
          → told a.target_id ≡ some id
          → get_card w.cards id ≡ inr card
          → (is_docker t.kind ≡ false)
            × (on_production t ≡ says_so w card)
            × ((o : Option Owner) (allow : Option Bool) (switched : Bool) (fresh : String)
                → says_so w card ≡ true
                → (init t o allow switched fresh).allow_commit ≡ false))
open_target_lem w a t h = (
  (λ e. local_kind w a t e h),
  λ id card given found.
      let remote = remote_opened w a t id given h in
      let same : on_production t ≡ says_so w card =
        card_target-production w card t (sym (remote_target-card w id card found) ∙ remote) in
      (
        (remote_target-kind w id t remote).0,
        same,
        λ o allow switched fresh said.
            production-first_right t o allow switched fresh (same ∙ said),
      ),
)
