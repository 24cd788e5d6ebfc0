-- ===== src/Session/Rights/Guard.antt =====
-- The commit guard of odoo_sheller/session.py: what holds of the right to commit whatever is called.
use odoo_sheller.Common.{
  String, ◌≡◌, ◌≢◌, ◌↔◌, inl, inr, Bool, true, false, Option, none, some, arith, if◌then◌else◌,
  string_eq, nat_eq, lookup,
}
use odoo_sheller.Session.Records.{Owner, Grant, PolicyReason}
use odoo_sheller.Session.Rights.{
  commit_forbidden, production_confirmation, commit_not_allowed, Rights, is_human, is_agent,
  needs_no_grant, switch_covers, init, transfer_owner, apply_container_switch, names_target,
  set_allow_commit, spend_production_grant, may_commit,
}
use odoo_sheller.Transport.{Target, is_docker, target_name, is_remote, on_production}

-- What the right and its grant say of one another, of the owner and of the target.
pub record IsSound (r : Rights) : Type 0 where
  -- on production the right is a human's
  pub human_only :
      on_production r.target ≡ true → r.allow_commit ≡ true → is_human r.owner.kind ≡ true
  -- a grant is recorded exactly where a right is held that had to be given
  pub granted :
      r.allow_commit ≡ true → r.commit_grant ≡ none → needs_no_grant r.target r.owner.kind ≡ true
  pub backed : (g : Grant) → r.commit_grant ≡ some g → r.allow_commit ≡ true
  -- the switch gives the right to agents in local containers alone
  pub standing :
      r.commit_grant ≡ some Grant.container
      → (is_agent r.owner.kind ≡ true)
        × (is_docker r.target.kind ≡ true)
        × (on_production r.target ≡ false)

init-IsSound :
    (t : Target) (o : Option Owner) (allow : Option Bool) (switched : Bool) (fresh : String)
    → IsSound (init t o allow switched fresh)
unfolding init needs_no_grant switch_covers
init-IsSound t o allow switched fresh = record {
  human_only = ground arith;
  granted = ground arith;
  backed = ground arith;
  standing = ground arith;
}

-- What a client, the API and the commands may do to the rights of a session.
pub data Step : Rights → Rights → Type 0 where
  -- `secrets.token_urlsafe` gives no key twice
  transfer :
      (r : Rights) (o : Owner) (switched : Bool) (fresh : String)
      → lookup fresh r.key_kinds ≡ none
      → Step r (transfer_owner o switched fresh r)
  switch : (r : Rights) (on switched : Bool) → Step r (apply_container_switch on switched r).0
  policy :
      (r r' : Rights) (allowed : Bool) (confirm : Option String)
      → set_allow_commit allowed confirm r ≡ inr r'
      → Step r r'
  spend : (r : Rights) (reason : PolicyReason) → Step r (spend_production_grant reason r)

pub data Reach : Rights → Type 0 where
  opened :
      (t : Target) (o : Option Owner) (allow : Option Bool) (switched : Bool) (fresh : String)
      → Reach (init t o allow switched fresh)
  next : {r r' : Rights} → Reach r → Step r r' → Reach r'

transfer-IsSound :
    (r : Rights) (o : Owner) (switched : Bool) (fresh : String)
    → IsSound (transfer_owner o switched fresh r)
unfolding transfer_owner needs_no_grant switch_covers
transfer-IsSound r o switched fresh = record {
  human_only = ground arith;
  granted = ground arith;
  backed = ground arith;
  standing = ground arith;
}

switch-IsSound :
    (r : Rights) (on switched : Bool) → IsSound r → IsSound (apply_container_switch on switched r).0
unfolding apply_container_switch switch_covers
switch-IsSound r true switched h = record {
  human_only = ground (arith, h.human_only);
  granted = ground (arith, h.granted);
  backed = λ g. ground (arith, h.backed g);
  standing = ground (arith, h.standing);
}
switch-IsSound r false switched h = record {
  human_only = ground (arith, h.human_only);
  granted = ground (arith, h.granted);
  backed = λ g. ground (arith, h.backed g);
  standing = ground (arith, h.standing);
}

policy-IsSound :
    (r r' : Rights) (allowed : Bool) (confirm : Option String)
    → set_allow_commit allowed confirm r ≡ inr r'
    → IsSound r'
unfolding set_allow_commit
policy-IsSound r r' allowed confirm e = record {
  human_only = ground arith;
  granted = ground arith;
  backed = λ g. ground arith;
  standing = ground arith;
}

spend-IsSound :
    (r : Rights) (reason : PolicyReason) → IsSound r → IsSound (spend_production_grant reason r)
unfolding spend_production_grant
spend-IsSound r reason h = record {
  human_only = ground (arith, h.human_only);
  granted = ground (arith, h.granted);
  backed = λ g. ground (arith, h.backed g);
  standing = ground (arith, h.standing);
}

-- However a session was opened, handed over, granted, revoked, switched and spent: on production
-- only a human holds the right; a right without a recorded grant is that of a local human; a
-- recorded grant comes with the right; and a grant by the container switch is an agent's, in a
-- local container, and not on production.
pub Reach-IsSound : {r : Rights} → Reach r → IsSound r
Reach-IsSound (opened t o allow switched fresh) = init-IsSound t o allow switched fresh
Reach-IsSound (next p (transfer r o switched fresh e)) = transfer-IsSound r o switched fresh
Reach-IsSound (next p (switch r on switched)) = switch-IsSound r on switched (Reach-IsSound p)
Reach-IsSound (next p (policy r r' allowed confirm e)) = policy-IsSound r r' allowed confirm e
Reach-IsSound (next p (spend r reason)) = spend-IsSound r reason (Reach-IsSound p)

-- A grant on production is made exactly when the owner is a human and the name is typed as the
-- target's; a refusal says which of the two is missing, and nothing else is refused.
pub set_allow_commit_iff :
    (r : Rights) (allowed : Bool) (confirm : Option String)
    → ((set_allow_commit allowed confirm r ≡ inl commit_forbidden)
        ↔ ((allowed ≡ true) × (on_production r.target ≡ true) × (is_human r.owner.kind ≡ false)))
      × ((set_allow_commit allowed confirm r ≡ inl production_confirmation) ↔ (
          (allowed ≡ true)
          × (on_production r.target ≡ true)
          × (is_human r.owner.kind ≡ true)
          × (names_target confirm (target_name r.target) ≡ false)))
      × (set_allow_commit allowed confirm r ≢ inl commit_not_allowed)
unfolding set_allow_commit
set_allow_commit_iff r allowed confirm = ground arith

-- Once the grant is spent, nobody commits on production until a new one is made.
pub may_commit-spend :
    (r : Rights) (reason : PolicyReason)
    → on_production r.target ≡ true
    → is_remote r.target ≡ true
    → may_commit (spend_production_grant reason r)
      ≡ some (if is_human r.owner.kind then commit_not_allowed else commit_forbidden)
unfolding may_commit spend_production_grant
may_commit-spend r reason p q = ground arith

-- After a container is switched off, a commit may be attempted there by a human owner alone.
pub may_commit-switch_off :
    (r : Rights) (switched : Bool)
    → may_commit (apply_container_switch false switched r).0 ≡ none
    → is_human r.owner.kind ≡ true
unfolding may_commit apply_container_switch
may_commit-switch_off r switched e = ground arith

-- After a container is switched on, every agent session on it that did not opt out may commit.
pub may_commit-switch_on :
    (r : Rights)
    → switch_covers r.target r.owner.kind r.opted_out true ≡ true
    → may_commit (apply_container_switch true true r).0 ≡ none
unfolding may_commit apply_container_switch
may_commit-switch_on r e = ground arith
