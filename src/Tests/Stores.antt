-- ===== src/Tests/Stores.antt =====
-- Cards, switches and queues on which the theorems are applied.
use odoo_sheller.Targets.Keeping
use odoo_sheller.AgentCommit
use odoo_sheller.AgentCommit.{
  Switch, SwitchFile, SwitchError, turn_on, turn_off, is_on, is_container_name,
}
use odoo_sheller.Registry.Sweep
use odoo_sheller.Registry.Queues
use odoo_sheller.Tests.Cards.{small_python}
use odoo_sheller.Tests.Sessions.{ready_session}
use odoo_sheller.Common.{
  String, ◌≡◌, refl, inl, inr, true, false, Option, none, some, List, [], ◌∷◌, if◌then◌else◌, ◌==◌,
  string_eq, nat_eq, All, contains,
}
use odoo_sheller.Recipe.Words.{is_ssh_name}
use odoo_sheller.Targets.{
  Cards, File, missing, Wording, build_name, read_file, checked_name, checked_odoosh,
}
use odoo_sheller.Targets.Store.{card_of, add_odoosh}
use odoo_sheller.Targets.Tidy.{BuildsApart}
use odoo_sheller.Registry.{Registered, Registry, set_agent_commit, event, hung_up, Board, broadcast}

abbrev small_wording : Wording
small_wording = record { strip = λ text. text; casefold = λ text. text; isprintable = λ text. true }

abbrev one_card : File
one_card = elim (add_odoosh small_wording small_python "101" "acme" none (some "staging") missing) [
  | inr (g, k) ↦ g
  | inl p ↦ missing
]

abbrev two_cards : File
two_cards = elim (add_odoosh small_wording small_python "102" "acme" (some "shop") none one_card) [
  | inr (g, k) ↦ g
  | inl p ↦ missing
]

abbrev the_cards : Cards
the_cards = elim (read_file two_cards) [ inr c ↦ c | inl p ↦ record { odoosh = []; ssh = [] } ]

cards_added : Keeping.Reach small_wording small_python two_cards
unfolding add_odoosh checked_odoosh checked_name build_name is_ssh_name card_of
cards_added =
    Keeping.next
      (Keeping.next Keeping.started (Keeping.added "101" "acme" none (some "staging") refl))
      (Keeping.added "102" "acme" (some "shop") none refl)

Reach-Tidy_example : BuildsApart small_wording the_cards.odoosh
unfolding add_odoosh checked_odoosh checked_name build_name is_ssh_name card_of
Reach-Tidy_example = Keeping.Reach-Tidy small_wording small_python cards_added the_cards refl

abbrev closed_further : Option String
closed_further = some "production"

abbrev mig : String
mig = "mig18"

abbrev mig_entry : Switch
mig_entry = record { container = "mig18"; since = "noon" }

abbrev mig_on : SwitchFile
mig_on = AgentCommit.holds (mig_entry ∷ [])

abbrev registered : Registered
registered = record { id = "5f0c"; container_name = some "mig18"; session = ready_session }

abbrev registry : Registry
registry = record { sessions = registered ∷ []; agent_commit = AgentCommit.missing }

abbrev opened_registry : Registry
opened_registry = (set_agent_commit true (λ id. true) "mig18" true "noon" registry).1

set_agent_commit-off_example :
    All
      (Sweep.Revoked "mig18")
      (set_agent_commit false (λ id. true) "mig18" false "noon" opened_registry).1.sessions
set_agent_commit-off_example =
    Sweep.set_agent_commit-off false (λ id. true) "mig18" "noon" opened_registry
      (Sweep.all_logged false (λ id. true) "mig18" "noon" opened_registry (λ id. refl))

abbrev opened_ids : List String
opened_ids = "5f0c" ∷ []

-- Two watchers, the first of them full
abbrev board : Board String
board = record {
  queues = λ q. if q == 1 then event "old" ∷ [] else [];
  watchers = 1 ∷ 2 ∷ [];
  subscribers = ("5f0c", 2 ∷ []) ∷ [];
}

broadcast_lem_example :
    let after = broadcast 1 "state" board in
    (after.queues 1 ≡ hung_up ∷ []) × (contains after.watchers 1 ≡ false)
broadcast_lem_example = Queues.broadcast_lem 1 "state" board 1 (refl, (refl, tt))
