-- ===== src/Tests/Requests.antt =====
-- Requests on which the theorems are applied.
use odoo_sheller.Common.{
  ℕ, ◌≤◌, String, ◌≡◌, refl, inl, inr, Bool, true, false, Option, none, some, List, [], ◌∷◌, ◌++◌,
  ltb, if◌then◌else◌, ◌==◌, string_eq, nat_eq, is_some, length, All, contains,
}
use odoo_sheller.Api.{Caller, is_admin, body_owner}
use odoo_sheller.Api.Opening.{OpenBody, open_guard}
use odoo_sheller.Api.Agents.{
  Request, owner_request, policy_request, caller_of, switch_said, after_requests,
}
use odoo_sheller.Guard.{
  Net, is_port_part, authority_name, origin_authority, values_of, is_loopback, host_is_loopback,
  origin_is_own, origin_refusal, judged, refusal,
}
use odoo_sheller.Registry.{event, hung_up, queues_of}
use odoo_sheller.Registry.Closing.{Live, subscribe, close_session, autoclose, close_session-hang_up}
use odoo_sheller.Registry.Opening.{World, Asked, told, odoosh_target, remote_target, open_target}
use odoo_sheller.Targets.{holds}
use odoo_sheller.Targets.Store.{Card, card_of, build_of, get_card}
use odoo_sheller.Transport.{Target, is_docker, on_production}
use odoo_sheller.Session.Rights.{is_human, init, may_commit, held_by_human}
use odoo_sheller.Session.Records.{Owner}
use odoo_sheller.Api.Agents.Outside.{IsOutside, agents_never_commit}
use odoo_sheller.Registry.Opening.Placed.{says_so, open_target_lem}
use odoo_sheller.Guard.Addressed.{IsLoopbackHost, IsOwnOrigin, refusal-none}
use odoo_sheller.Tests.Sessions.{local_container}
use odoo_sheller.Tests.Cards.{small_python}
use odoo_sheller.Registry.Starting.{start_failed, start_failed-listeners}

abbrev by_key : Caller
by_key = record { session_key = some "k1"; admin_key = some "guess" }

-- An agent asks for the right, and to hand the session to a human.
abbrev small_requests : List Request
small_requests =
    policy_request by_key true (some "shop")
    ∷ owner_request by_key true none false "k2"
    ∷ owner_request by_key false none false "k3"
    ∷ policy_request by_key true none
    ∷ []

abbrev small_body : OpenBody
small_body = record {
  container = some "shop";
  owner = some (false, none);
  allow_commit = some true;
  target_id = none;
}

agents_never_commit_example :
    let r =
      after_requests "adm" small_requests
        (init local_container (some (body_owner false none)) none false "k1") in
    (is_some (may_commit r) ≡ true)
    × ((key : Option String) → held_by_human key r ≡ false)
    × (is_human r.owner.kind ≡ false)
unfolding is_admin open_guard IsOutside caller_of switch_said
agents_never_commit_example =
    agents_never_commit "adm" (some "guess") none true small_body none none local_container "k1"
      small_requests refl refl refl
      ((refl, refl), ((refl, refl), ((refl, refl), ((refl, refl), tt))))

abbrev small_net : Net
small_net = record { lower = λ s. s; is_loopback_ip = λ s. s == "127.0.0.1" }

abbrev small_headers : List (String × String)
small_headers =
    ("accept", "*/*") ∷ ("host", "127.0.0.1:8069") ∷ ("origin", "http://127.0.0.1:8069") ∷ []

refusal-none_example :
    (host : String) × (values_of "host" small_headers ≡ host ∷ [])
    × IsLoopbackHost small_net host
    × All (λ h. (h.0 == "host") ≡ true → h.1 ≡ host) small_headers
    × All (λ h. (h.0 == "origin") ≡ true → IsOwnOrigin small_net host h.1) small_headers
    × (length (values_of "origin" small_headers) ≤ 1)
unfolding refusal judged origin_refusal values_of host_is_loopback origin_is_own is_loopback
    authority_name origin_authority is_port_part
refusal-none_example = refusal-none small_net small_headers refl

abbrev small_live : Live ℕ
small_live = record {
  registered = "a" ∷ "b" ∷ [];
  board = record {
    queues = λ q. event 7 ∷ [];
    watchers = 3 ∷ [];
    subscribers = ("a", 1 ∷ 2 ∷ []) ∷ ("b", 4 ∷ []) ∷ [];
  };
  autocloses = "a" ∷ [];
}

close_session-hang_up_example :
    let after = close_session 10 "a" 0 small_live in
    ((q : ℕ)
      → contains small_live.board.watchers q ≡ false
      → after.board.queues q ≡ (
          if contains (queues_of "a" small_live.board.subscribers) q
          then hung_up ∷ []
          else small_live.board.queues q))
    × (contains after.registered "a" ≡ false)
    × (queues_of "a" after.board.subscribers ≡ [])
    × (autoclose 10 "a" 1 after ≡ after)
close_session-hang_up_example = close_session-hang_up 10 "a" 0 1 small_live

start_failed-listeners_example :
    let after = start_failed 10 "a" 0 true small_live in
    (contains after.registered "a" ≡ false)
    × ((q : ℕ) → subscribe "a" q after ≡ none)
    × ((q : ℕ)
        → after.board.queues q ≡ (
            if contains small_live.board.watchers q
            then (if ltb (length (small_live.board.queues q)) 10
                then small_live.board.queues q ++ event 0 ∷ []
                else hung_up ∷ [])
            else small_live.board.queues q))
    × (queues_of "a" after.board.subscribers ≡ queues_of "a" small_live.board.subscribers)
start_failed-listeners_example = start_failed-listeners 10 "a" 0 small_live (refl, tt)

abbrev small_world : World
small_world = record {
  py = small_python;
  probe = λ c. record { usable = true; odoo_bin = some "/odoo-bin" };
  probe_ssh = λ a l. record { usable = false; db_name = none };
  probe_odoosh = λ b h. record { supported = true; stage = some "production"; db_name = none };
  cards = holds (record {
    odoosh =
        record { name = none; build = "101"; host = "acme.odoo.com"; stage = some "staging" } ∷ [];
    ssh = [];
  });
  journals = [];
  lines_of = λ name. [];
}

abbrev small_asked : Asked
small_asked = record {
  container = none;
  database = none;
  odoo_bin = none;
  replace = none;
  target_id = some "odoosh-101";
}

abbrev small_target : Target
small_target = elim (open_target small_world small_asked) [ inr t ↦ t | inl e ↦ local_container ]

open_target_lem_example :
    (told small_asked.target_id ≡ none
      → (is_docker small_target.kind ≡ true) × (on_production small_target ≡ false))
    × ((id : String) (card : Card)
        → told small_asked.target_id ≡ some id
        → get_card small_world.cards id ≡ inr card
        → (is_docker small_target.kind ≡ false)
          × (on_production small_target ≡ says_so small_world card)
          × ((o : Option Owner) (allow : Option Bool) (switched : Bool) (fresh : String)
              → says_so small_world card ≡ true
              → (init small_target o allow switched fresh).allow_commit ≡ false))
unfolding open_target remote_target odoosh_target get_card build_of card_of
open_target_lem_example = open_target_lem small_world small_asked small_target refl
