-- ===== src/Api.antt =====
-- The guards of odoo_sheller/api.py on one session: who may type, hand over, grant and close, and
-- how a refusal is answered.
pub mod Opening
pub mod Agents
use odoo_sheller.Common.{
  ℕ, String, ◌⊎◌, inl, inr, Bool, false, not, ◌&&◌, ◌||◌, Option, none, some, if◌then◌else◌, ◌==◌,
  string_eq, nat_eq,
}
use odoo_sheller.Session.Records.{human, agent, Owner}
use odoo_sheller.Session.Rights.{
  Refusal, Rights, is_human, transfer_owner, set_allow_commit, KeyStatus, held_by, held_by_human,
  key_status,
}
use odoo_sheller.Transport.{is_docker}

-- The keys that a request carries.
pub record Caller : Type 0 where
  pub session_key : Option String
  pub admin_key : Option String

-- Why a request is refused.
pub data Denied : Type 0 where
  not_owner admin_only needs_a_human policy_not_applicable : Denied
  refused : Refusal → Denied

-- `is_admin`: the key is there, not empty, and the registry's.
unfoldable pub is_admin : String → Option String → Bool
is_admin admin none = false
is_admin admin (some key) = not (key == "") && key == admin

-- `require_owner`
unfoldable pub require_owner : Caller → Rights → Option Denied
require_owner c r = elim c.session_key [
  | none ↦ some not_owner
  | some key ↦ if key == "" || not (key == r.write_key) then some not_owner else none
]

-- `require_owner_or_admin`
unfoldable pub require_owner_or_admin : String → Caller → Rights → Option Denied
require_owner_or_admin admin c r = if is_admin admin c.admin_key then none else require_owner c r

-- `require_admin`
unfoldable pub require_admin : String → Caller → Option Denied
require_admin admin c = if is_admin admin c.admin_key then none else some admin_only

-- `require_human_or_admin`
unfoldable pub require_human_or_admin : String → Caller → Rights → Option Denied
require_human_or_admin admin c r =
    if is_admin admin c.admin_key || held_by_human c.session_key r then none else some needs_a_human

-- The `kind` of the model `Owner`, which is one of two, and its label, which is the kind if there
-- is none.
unfoldable pub body_owner : (is_a_human : Bool) → Option String → Owner
body_owner is_a_human label =
    let kind : String = if is_a_human then "human" else "agent" in
    record {
      kind = if is_a_human then human else agent;
      label = elim label [ none ↦ some kind | some l ↦ some (if l == "" then kind else l) ];
    }

-- `set_owner`; `fresh` is the new key and `switched` the answer of the container switch.
unfoldable pub set_owner :
    String → Caller → (is_a_human : Bool) → Option String → Bool → String → Rights → Denied ⊎ Rights
set_owner admin c is_a_human label switched fresh r =
    let denied =
      if not (held_by c.session_key r)
      then require_admin admin c
      else if is_a_human
      then require_human_or_admin admin c r
      else none in
    elim denied [
      | some d ↦ inl d
      | none ↦ inr (transfer_owner (body_owner is_a_human label) switched fresh r)
    ]

-- `set_policy`
unfoldable pub set_policy : String → Caller → Bool → Option String → Rights → Denied ⊎ Rights
set_policy admin c allowed confirm r =
    let denied =
      if not (held_by c.session_key r)
      then require_admin admin c
      else if allowed
      then require_human_or_admin admin c r
      else none in
    elim denied [
      | some d ↦ inl d
      | none ↦
          if not allowed && is_human r.owner.kind && is_docker r.target.kind
          then inl policy_not_applicable
          else elim (set_allow_commit allowed confirm r) [ inl p ↦ inl (refused p) | inr s ↦ inr s ]
    ]

-- What stands before `exec`, `run_test`, `commit` and `rollback`, before `interrupt`, and before a
-- close: a session that is dead may be closed by anyone.
pub data Act : Type 0 where
  types interrupts : Act
  closes : (died : Bool) → Act

unfoldable pub guard_of : String → Act → Caller → Rights → Option Denied
guard_of admin types c r = require_owner c r
guard_of admin interrupts c r = require_owner_or_admin admin c r
guard_of admin (closes died) c r =
    if not died && not (held_by c.session_key r) then require_owner_or_admin admin c r else none

-- `get_session`: what it says of the key that came with the request, if one did.
unfoldable pub presented_status : Option String → Rights → Option KeyStatus
presented_status none r = none
presented_status (some key) r = if key == "" then none else some (key_status (some key) r)

-- What a call of the session or the registry may raise, as far as `translate` tells it apart.
pub data Raised : Type 0 where
  session_busy session_not_ready run_params_unsupported production_confirmation : Raised
  commit_forbidden commit_not_allowed session_dead timeout_error anything_else : Raised

-- `translate`: the status, and the code of the error if the answer has one.
unfoldable pub translate : Raised → Bool → ℕ × Option String
translate session_busy named = (409, none)
translate session_not_ready named = (409, none)
translate run_params_unsupported named = (422, some "params_unsupported")
translate production_confirmation named = (422, some "confirm_target")
translate commit_forbidden named = (423, some "commit_forbidden")
translate commit_not_allowed named = (423, some "commit_not_allowed")
translate session_dead named = (410, if named then some "session_gone" else none)
translate timeout_error named = (504, none)
translate anything_else named = (500, none)
