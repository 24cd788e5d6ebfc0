-- ===== src/Api/Agents/Outside.antt =====
-- Requests without the admin key, one after another, through the routes of odoo_sheller/api.py.
use odoo_sheller.Common.{
  String, ◌≡◌, refl, ap, subst, ◌⊎◌, inl, inr, Bool, true, false, Option, none, some, List, [], ◌∷◌,
  arith, eq_iff, Bool-cases, Option-cases, is_some, All,
}
use odoo_sheller.Session.Records.{Owner}
use odoo_sheller.Session.Rights.{
  Rights, is_human, needs_no_grant, switch_covers, starts_with_commit, first_right, init,
  may_commit, held_by, held_by_human,
}
use odoo_sheller.Transport.{Target}
use odoo_sheller.Api.{Caller, Denied, is_admin, body_owner, set_owner, set_policy}
use odoo_sheller.Api.Opening.{OpenBody, is_agents, open_guard}
use odoo_sheller.Api.Agents.{
  Request, owner_request, policy_request, caller_of, switch_said, answer_request, settle,
  after_request, after_requests, IsAgents, transfer_owner-IsAgents, revoked-IsAgents,
  set_owner-accepted, set_policy-accepted,
}

settle-IsAgents :
    (a : Denied ⊎ Rights) (r : Rights)
    → IsAgents r
    → ((s : Rights) → a ≡ inr s → IsAgents s)
    → IsAgents (settle a r)
settle-IsAgents (inl d) r k next = k
settle-IsAgents (inr s) r k next = next s refl

no_human_key : (c : Caller) (r : Rights) → IsAgents r → held_by_human c.session_key r ≡ false
unfolding IsAgents
no_human_key c r (keys, agents, right) = keys c.session_key

after_request-IsAgents :
    (admin : String) (q : Request) (r : Rights)
    → is_admin admin (caller_of q).admin_key ≡ false
    → switch_said q ≡ false
    → IsAgents r
    → IsAgents (after_request admin q r)
unfolding after_request answer_request caller_of switch_said
after_request-IsAgents admin (owner_request c is_a_human label true fresh) r out off k =
    absurd (ground (arith, off))
after_request-IsAgents admin (owner_request c is_a_human label false fresh) r out off k =
    settle-IsAgents (set_owner admin c is_a_human label false fresh r) r k (λ s h.
      subst IsAgents
        (set_owner-accepted admin c is_a_human label fresh r s out (no_human_key c r k) h)
        (transfer_owner-IsAgents label fresh r k))
after_request-IsAgents admin (policy_request c allowed confirm) r out off k =
    settle-IsAgents (set_policy admin c allowed confirm r) r k (λ s h.
      subst IsAgents (set_policy-accepted admin c allowed confirm r s out (no_human_key c r k) h)
        (revoked-IsAgents r k))

-- A request without the admin key, made while the container switch was off.
unfoldable pub IsOutside : String → Request → Type 0
IsOutside admin q = (is_admin admin (caller_of q).admin_key ≡ false) × (switch_said q ≡ false)

after_requests-IsAgents :
    (admin : String) (qs : List Request) (r : Rights)
    → All (IsOutside admin) qs
    → IsAgents r
    → IsAgents (after_requests admin qs r)
unfolding after_requests IsOutside
after_requests-IsAgents admin [] r out k = k
after_requests-IsAgents admin (q ∷ qs) r ((out, off), outs) k =
    after_requests-IsAgents admin qs (after_request admin q r) outs
      (after_request-IsAgents admin q r out off k)

may_commit-IsAgents : (r : Rights) → IsAgents r → is_some (may_commit r) ≡ true
unfolding may_commit IsAgents
may_commit-IsAgents r (keys, agents, right) = ground (arith, agents, right)

-- What the door passes on for an agent without the admin key is never a grant.
open_guard-agents :
    (admin : String) (admin_key origin : Option String) (by_switch : Bool) (body : OpenBody)
    (allow : Option Bool)
    → is_admin admin admin_key ≡ false
    → is_agents body.owner ≡ true
    → open_guard admin admin_key origin by_switch body ≡ inr allow
    → (allow ≡ none) ⊎ (allow ≡ some false)
unfolding open_guard
open_guard-agents admin admin_key origin by_switch body allow out agents h =
    elim (Option-cases body.allow_commit) [
      | inl e ↦ inl (ground (arith, h, e, out))
      | inr (asked, e) ↦ elim (Bool-cases asked) [
        | inl so ↦ inl (ground (arith, h, e, so, out, agents))
        | inr kept ↦ inr (ground (arith, h, e, kept, out))
      ]
    ]

init-IsAgents :
    (t : Target) (label : Option String) (allow : Option Bool) (fresh : String)
    → (allow ≡ none) ⊎ (allow ≡ some false)
    → IsAgents (init t (some (body_owner false label)) allow false fresh)
unfolding IsAgents
init-IsAgents t label allow fresh h =
    let o : Owner = body_owner false label in
    let kind : is_human o.kind ≡ false = unfold body_owner in refl in
    (
      (λ key. elim key as (λ k. held_by_human k (init t (some o) allow false fresh) ≡ false) [
        | none ↦ unfold held_by_human in refl
        | some k ↦
            unfold held_by_human held_by init in
            ground (arith, kind, eq_iff fresh k, eq_iff k fresh)
      ]),
      unfold init in kind,
      unfold init first_right starts_with_commit needs_no_grant switch_covers body_owner in
          ground (arith, h),
    )

-- A session that an agent opens without the admin key never gets the right to commit by requests
-- without the admin key, whatever they ask for, with whatever keys, in any order, if the switch of its
-- container is off all the while: neither a grant, nor a handover to a human, nor opening it with the
-- right already in it. No key of it is ever a human's.
pub agents_never_commit :
    (admin : String) (admin_key origin : Option String) (by_switch : Bool) (body : OpenBody)
    (label : Option String) (allow : Option Bool) (t : Target) (fresh : String) (qs : List Request)
    → is_admin admin admin_key ≡ false
    → body.owner ≡ some (false, label)
    → open_guard admin admin_key origin by_switch body ≡ inr allow
    → All (IsOutside admin) qs
    → let r = after_requests admin qs (init t (some (body_owner false label)) allow false fresh) in
      (is_some (may_commit r) ≡ true)
      × ((key : Option String) → held_by_human key r ≡ false)
      × (is_human r.owner.kind ≡ false)
agents_never_commit admin admin_key origin by_switch body label allow t fresh qs out owned door
      outs =
    let start = init-IsAgents t label allow fresh (
      open_guard-agents admin admin_key origin by_switch body allow out (ap is_agents owned)
        door) in
    let r = after_requests admin qs (init t (some (body_owner false label)) allow false fresh) in
    let final : IsAgents r = after_requests-IsAgents admin qs _ outs start in
    unfold IsAgents in (may_commit-IsAgents r final, final.0, final.1)
