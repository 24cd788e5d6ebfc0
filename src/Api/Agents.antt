-- ===== src/Api/Agents.antt =====
-- What requests without the admin key can do to a session that an agent opened, through the routes
-- of odoo_sheller/api.py.
pub mod Outside
use odoo_sheller.Common.{
  String, ◌≡◌, refl, ◌⊎◌, inl, inr, Bool, true, false, Option, none, some, List, [], ◌∷◌, ◌++◌,
  arith, eq_iff, ◌==◌, string_eq, nat_eq, Bool-cases,
}
use odoo_sheller.Session.Records.{Owner, policy_changed, policy_event}
use odoo_sheller.Session.Rights.{
  Rights, is_human, needs_no_grant, switch_covers, starts_with_commit, transfer_owner,
  set_allow_commit, held_by, held_by_human,
}
use odoo_sheller.Api.{
  Caller, Denied, is_admin, require_admin, require_human_or_admin, body_owner, set_owner,
  set_policy,
}

-- A request that may change who owns a session or what it may do. A handover comes with the new key
-- and the answer of the container switch.
pub data Request : Type 0 where
  owner_request : Caller → (is_a_human : Bool) → Option String → Bool → String → Request
  policy_request : Caller → Bool → Option String → Request

unfoldable pub caller_of : Request → Caller
caller_of (owner_request c is_a_human label switched fresh) = c
caller_of (policy_request c allowed confirm) = c

-- What the container switch said meanwhile.
unfoldable pub switch_said : Request → Bool
switch_said (owner_request c is_a_human label switched fresh) = switched
switch_said (policy_request c allowed confirm) = false

unfoldable pub answer_request : String → Request → Rights → Denied ⊎ Rights
answer_request admin (owner_request c is_a_human label switched fresh) r =
    set_owner admin c is_a_human label switched fresh r
answer_request admin (policy_request c allowed confirm) r = set_policy admin c allowed confirm r

-- A refused request leaves the session as it is.
abbrev pub settle : Denied ⊎ Rights → Rights → Rights
settle (inl d) r = r
settle (inr s) r = s

unfoldable pub after_request : String → Request → Rights → Rights
after_request admin q r = settle (answer_request admin q r) r

unfoldable pub after_requests : String → List Request → Rights → Rights
after_requests admin [] r = r
after_requests admin (q ∷ qs) r = after_requests admin qs (after_request admin q r)

-- No key of this session is a human's, an agent owns it, and it may not commit.
unfoldable pub IsAgents : Rights → Type 0
IsAgents r =
    ((key : Option String) → held_by_human key r ≡ false)
    × (is_human r.owner.kind ≡ false)
    × (r.allow_commit ≡ false)

-- A handover to an agent makes no human's key.
transfer_owner-held_by_human :
    (o : Owner) (fresh key : String) (r : Rights)
    → is_human o.kind ≡ false
    → held_by_human (some key) r ≡ false
    → held_by_human (some key) (transfer_owner o false fresh r) ≡ false
unfolding held_by_human held_by transfer_owner
transfer_owner-held_by_human o fresh key r agents before = elim (Bool-cases (fresh == key)) [
  | inl e ↦ ground (arith, e, agents)
  | inr e ↦ ground (arith, e, before, eq_iff fresh key, eq_iff key fresh)
]

pub transfer_owner-IsAgents :
    (label : Option String) (fresh : String) (r : Rights)
    → IsAgents r
    → IsAgents (transfer_owner (body_owner false label) false fresh r)
unfolding IsAgents
transfer_owner-IsAgents label fresh r (keys, agents, right) =
    let o : Owner = body_owner false label in
    let kind : is_human o.kind ≡ false = unfold body_owner in refl in
    (
      (λ key. elim key as (λ k. held_by_human k (transfer_owner o false fresh r) ≡ false) [
        | none ↦ unfold held_by_human in refl
        | some k ↦ transfer_owner-held_by_human o fresh k r kind (keys (some k))
      ]),
      unfold transfer_owner in kind,
      unfold transfer_owner starts_with_commit needs_no_grant switch_covers body_owner in
          ground arith,
    )

-- Taking the right back changes no key and no owner.
unfoldable pub revoked : Rights → Rights
revoked r = record r {
  allow_commit = false;
  commit_grant = none;
  journal = r.journal ++ policy_changed false none none ∷ [];
  events = r.events ++ policy_event false none ∷ [];
}

pub revoked-IsAgents : (r : Rights) → IsAgents r → IsAgents (revoked r)
unfolding IsAgents revoked held_by_human held_by
revoked-IsAgents r (keys, agents, right) = (
  (λ key. elim key as (λ k. held_by_human k (revoked r) ≡ false) [
    | none ↦ refl
    | some k ↦ keys (some k)
  ]),
  agents,
  refl,
)

set_allow_commit-false :
    (confirm : Option String) (r : Rights) → set_allow_commit false confirm r ≡ inr (revoked r)
unfolding set_allow_commit revoked
set_allow_commit-false confirm r = refl

-- Without the admin key and a human's key only a handover to an agent is accepted.
pub set_owner-accepted :
    (admin : String) (c : Caller) (is_a_human : Bool) (label : Option String) (fresh : String)
    (r s : Rights)
    → is_admin admin c.admin_key ≡ false
    → held_by_human c.session_key r ≡ false
    → set_owner admin c is_a_human label false fresh r ≡ inr s
    → transfer_owner (body_owner false label) false fresh r ≡ s
unfolding set_owner require_admin require_human_or_admin
set_owner-accepted admin c true label fresh r s out k h = absurd (ground (arith, out, k, h))
set_owner-accepted admin c false label fresh r s out k h = ground (arith, out, h)

pub set_policy-accepted :
    (admin : String) (c : Caller) (allowed : Bool) (confirm : Option String) (r s : Rights)
    → is_admin admin c.admin_key ≡ false
    → held_by_human c.session_key r ≡ false
    → set_policy admin c allowed confirm r ≡ inr s
    → revoked r ≡ s
unfolding set_policy require_admin require_human_or_admin
set_policy-accepted admin c true confirm r s out k h = absurd (ground (arith, out, k, h))
set_policy-accepted admin c false confirm r s out k h =
    ground (arith, out, h, set_allow_commit-false confirm r)
