-- ===== src/Session/Rights.antt =====
-- Who may type into a session and who may commit in it: the ownership and the commit right of
-- `Session` in odoo_sheller/session.py.
--
-- Two things come from outside and are arguments: the answer of the `_container_switch` callback
-- (`switched`), asked once in each call, and the text of `secrets.token_urlsafe` (`fresh`).
pub mod Guard
pub mod Keys
use odoo_sheller.Common.{
  ℕ, String, Bool, true, false, not, ◌&&◌, ◌||◌, ◌⊎◌, inl, inr, Option, none, some, List, [], ◌∷◌,
  ◌++◌, ◌==◌, string_eq, if◌then◌else◌, contains, lookup,
}
use odoo_sheller.Session.Records.{
  OwnerKind, human, agent, other, Owner, Grant, PolicyReason, switch_on, switch_off, Entry,
  owner_changed, policy_changed, Event, owner_event, policy_event,
}
use odoo_sheller.Transport.{Target, is_docker, is_remote, on_production, target_name}

pub data Refusal : Type 0 where
  commit_forbidden production_confirmation commit_not_allowed : Refusal

pub record Rights : Type 0 where
  pub target : Target
  pub owner : Owner
  pub opted_out : Bool
  pub allow_commit : Bool
  pub commit_grant : Option Grant
  pub write_key : String
  pub former_keys : List String
  pub key_kinds : List (String × OwnerKind)
  pub pending_commands : ℕ
  pub inherited_pending : ℕ
  pub journal : List Entry
  pub events : List Event

abbrev pub human_owner : Owner
human_owner = record { kind = human; label = some "browser" }

abbrev pub is_human : OwnerKind → Bool
is_human human = true
is_human _ = false

abbrev pub is_agent : OwnerKind → Bool
is_agent agent = true
is_agent _ = false

-- `_needs_no_grant`
unfoldable pub needs_no_grant : Target → OwnerKind → Bool
needs_no_grant t k = is_human k && not (is_remote t) && not (on_production t)

-- `_switch_covers`
unfoldable pub switch_covers : Target → OwnerKind → Bool → Bool → Bool
switch_covers t k opted_out switched =
    is_agent k && is_docker t.kind && not (on_production t) && not opted_out && switched

-- `_starts_with_commit`
unfoldable pub starts_with_commit : Target → OwnerKind → Bool → Bool → Bool
unfolding needs_no_grant switch_covers
starts_with_commit t k opted_out switched =
    needs_no_grant t k || switch_covers t k opted_out switched

abbrev is_false : Option Bool → Bool
is_false (some false) = true
is_false _ = false

-- The right that `__init__` settles on.
unfoldable pub first_right : Target → OwnerKind → Option Bool → Bool → Bool
unfolding starts_with_commit
first_right t k allow switched =
    if on_production t
    then false
    else elim allow [ none ↦ starts_with_commit t k false switched | some b ↦ b ]

-- `Session.__init__`
unfoldable pub init : Target → Option Owner → Option Bool → Bool → String → Rights
unfolding first_right
init t o allow switched fresh =
    let owner : Owner = elim o [ none ↦ human_owner | some w ↦ w ] in
    let opted_out : Bool = is_false allow in
    let right = first_right t owner.kind allow switched in
    record {
      target = t;
      owner = owner;
      opted_out = opted_out;
      allow_commit = right;
      commit_grant =
          if right && not (needs_no_grant t owner.kind)
          then some (
              if switch_covers t owner.kind opted_out switched
              then Grant.container
              else Grant.session)
          else none;
      write_key = fresh;
      former_keys = [];
      key_kinds = (fresh, owner.kind) ∷ [];
      pending_commands = 0;
      inherited_pending = 0;
      journal = [];
      events = [];
    }

-- `transfer_owner`; the new write key is `fresh`.
unfoldable pub transfer_owner : Owner → Bool → String → Rights → Rights
unfolding starts_with_commit
transfer_owner o switched fresh r =
    let right = starts_with_commit r.target o.kind false switched in
    record r {
      owner = o;
      opted_out = false;
      allow_commit = right;
      commit_grant =
          if right && switch_covers r.target o.kind false switched
          then some Grant.container
          else none;
      write_key = fresh;
      former_keys = r.write_key ∷ r.former_keys;
      key_kinds = (fresh, o.kind) ∷ r.key_kinds;
      inherited_pending = r.pending_commands;
      journal = r.journal ++ owner_changed r.owner o r.pending_commands ∷ [];
      events = r.events ++ owner_event o ∷ [];
    }

-- `apply_container_switch`, with a journal that takes its line; the answer is whether the right
-- changed.
unfoldable pub apply_container_switch : Bool → Bool → Rights → Rights × Bool
unfolding switch_covers
apply_container_switch true switched r =
    if r.allow_commit || not (switch_covers r.target r.owner.kind r.opted_out switched)
    then (r, false)
    else (
      record r {
        allow_commit = true;
        commit_grant = some Grant.container;
        journal = r.journal ++ policy_changed true (some switch_on) none ∷ [];
        events = r.events ++ policy_event true (some Grant.container) ∷ [];
      },
      true,
    )
apply_container_switch false switched r =
    if not r.allow_commit || is_human r.owner.kind then (r, false) else (
      record r {
        allow_commit = false;
        commit_grant = none;
        journal = r.journal ++ policy_changed false (some switch_off) none ∷ [];
        events = r.events ++ policy_event false none ∷ [];
      },
      true,
    )

-- `confirm != self.target.name`, both of which may be `None`
abbrev pub names_target : Option String → Option String → Bool
names_target none none = true
names_target (some c) (some n) = c == n
names_target _ _ = false

-- What `set_allow_commit` does once nothing refuses it.
abbrev granted : Bool → Option String → Rights → Rights
granted allowed confirmed r =
    let grant : Option Grant =
      if allowed && not (needs_no_grant r.target r.owner.kind) then some Grant.session else none in
    record r {
      allow_commit = allowed;
      commit_grant = grant;
      journal = r.journal ++ policy_changed allowed none confirmed ∷ [];
      events = r.events ++ policy_event allowed grant ∷ [];
    }

-- `set_allow_commit`
unfoldable pub set_allow_commit : Bool → Option String → Rights → Refusal ⊎ Rights
unfolding needs_no_grant target_name
set_allow_commit allowed confirm r =
    if allowed && on_production r.target
    then (if not (is_human r.owner.kind)
        then inl commit_forbidden
        else if not (names_target confirm (target_name r.target))
        then inl production_confirmation
        else inr (granted allowed confirm r))
    else inr (granted allowed none r)

-- `_spend_production_grant`
unfoldable pub spend_production_grant : PolicyReason → Rights → Rights
spend_production_grant reason r =
    if on_production r.target && r.allow_commit
    then record r {
      allow_commit = false;
      commit_grant = none;
      journal = r.journal ++ policy_changed false (some reason) none ∷ [];
      events = r.events ++ policy_event false none ∷ [];
    }
    else r

-- `_may_commit`, with the refusal that it or `_boundary` raises
unfoldable pub may_commit : Rights → Option Refusal
may_commit r =
    if on_production r.target && not (is_human r.owner.kind)
    then some commit_forbidden
    else if is_human r.owner.kind && not (is_remote r.target)
    then none
    else if r.allow_commit
    then none
    else some commit_not_allowed

-- `key_status`
pub data KeyStatus : Type 0 where
  owner former_owner invalid : KeyStatus

-- `held_by`; a key that is absent or empty holds nothing
unfoldable pub held_by : Option String → Rights → Bool
held_by none r = false
held_by (some key) r = not (key == "") && (key == r.write_key || contains r.former_keys key)

abbrev kind_is_human : Option OwnerKind → Bool
kind_is_human (some k) = is_human k
kind_is_human none = false

-- `held_by_human`
unfoldable pub held_by_human : Option String → Rights → Bool
unfolding held_by
held_by_human none r = false
held_by_human (some key) r = held_by (some key) r && kind_is_human (lookup key r.key_kinds)

unfoldable pub key_status : Option String → Rights → KeyStatus
key_status none r = KeyStatus.invalid
key_status (some key) r =
    if not (key == "") && key == r.write_key
    then KeyStatus.owner
    else if not (key == "") && contains r.former_keys key
    then KeyStatus.former_owner
    else KeyStatus.invalid
