-- ===== src/Session/Rights/Keys.antt =====
-- The keys of a session in odoo_sheller/session.py: what a handover leaves to the keys before it.
use odoo_sheller.Common.{
  String, ◌≡◌, refl, ◌≢◌, ◌↔◌, inr, Bool, true, false, Option, some, arith, eq_iff, string_eq,
  nat_eq, lookup,
}
use odoo_sheller.Session.Records.{OwnerKind, Owner, PolicyReason}
use odoo_sheller.Session.Rights.{
  Rights, is_human, transfer_owner, apply_container_switch, set_allow_commit,
  spend_production_grant, KeyStatus, held_by, held_by_human, key_status,
}
use odoo_sheller.Session.Rights.Guard.{Step, transfer, switch, policy, spend}

-- What may happen to a session from one moment to a later one.
pub data Later (r : Rights) : Rights → Type 0 where
  now : Later r r
  after : {s t : Rights} → Later r s → Step s t → Later r t

module _ (key : String) where
  switch_keys :
      (r : Rights) (on switched : Bool)
      → ((apply_container_switch on switched r).0.key_kinds ≡ r.key_kinds)
        × ((apply_container_switch on switched r).0.write_key ≡ r.write_key)
        × ((apply_container_switch on switched r).0.former_keys ≡ r.former_keys)
  unfolding apply_container_switch
  switch_keys r true switched = ground arith
  switch_keys r false switched = ground arith

  policy_keys :
      (r r' : Rights) (allowed : Bool) (confirm : Option String)
      → set_allow_commit allowed confirm r ≡ inr r'
      → (r'.key_kinds ≡ r.key_kinds)
        × (r'.write_key ≡ r.write_key)
        × (r'.former_keys ≡ r.former_keys)
  unfolding set_allow_commit
  policy_keys r r' allowed confirm e = ground arith

  spend_keys :
      (r : Rights) (reason : PolicyReason)
      → ((spend_production_grant reason r).key_kinds ≡ r.key_kinds)
        × ((spend_production_grant reason r).write_key ≡ r.write_key)
        × ((spend_production_grant reason r).former_keys ≡ r.former_keys)
  unfolding spend_production_grant
  spend_keys r reason = ground arith

  Step-kind :
      {r s : Rights} (k : OwnerKind)
      → Step r s
      → lookup key r.key_kinds ≡ some k
      → lookup key s.key_kinds ≡ some k
  unfolding transfer_owner
  Step-kind k (transfer r o switched fresh e) h = ground (arith, eq_iff fresh key)
  Step-kind k (switch r on switched) h = rw (switch_keys r on switched).0 h
  Step-kind k (policy r s allowed confirm e) h = rw (policy_keys r s allowed confirm e).0 h
  Step-kind k (spend r reason) h = rw (spend_keys r reason).0 h

  Step-held : {r s : Rights} → Step r s → held_by (some key) r ≡ true → held_by (some key) s ≡ true
  unfolding transfer_owner held_by
  Step-held (transfer r o switched fresh e) h = ground arith
  Step-held (switch r on switched) h =
      rw ((switch_keys r on switched).1, (switch_keys r on switched).2) h
  Step-held (policy r s allowed confirm e) h =
      rw ((policy_keys r s allowed confirm e).1, (policy_keys r s allowed confirm e).2) h
  Step-held (spend r reason) h = rw ((spend_keys r reason).1, (spend_keys r reason).2) h

  Later-kind :
      {r s : Rights} (k : OwnerKind)
      → Later r s
      → lookup key r.key_kinds ≡ some k
      → lookup key s.key_kinds ≡ some k
  Later-kind k now h = h
  Later-kind k (after p st) h = Step-kind k st (Later-kind k p h)

  -- Whoever could close a session or take it back can do so after any handovers, grants and
  -- switches: no operation takes that from a key.
  pub held_by-Later :
      {r s : Rights} → Later r s → held_by (some key) r ≡ true → held_by (some key) s ≡ true
  held_by-Later now h = h
  held_by-Later (after p st) h = Step-held st (held_by-Later p h)

  -- A key that was issued to an owner who is not a human never counts as a human's, whatever is
  -- done to the session: an agent's key can grant no commit and hand the session to no human.
  pub held_by_human-Later :
      {r s : Rights} (k : OwnerKind)
      → Later r s
      → lookup key r.key_kinds ≡ some k
      → is_human k ≡ false
      → held_by_human (some key) s ≡ false
  unfolding held_by_human
  held_by_human-Later {s} k p h e = ground (arith, Later-kind k p h)

-- After a handover exactly the new key, unless it is empty, may type; the key before it and those
-- before that are former owners'; the pending work counts as inherited; and every other key is
-- worth what it was.
pub key_status-transfer :
    (r : Rights) (o : Owner) (switched : Bool) (fresh key : String)
    → ((key_status (some key) (transfer_owner o switched fresh r) ≡ KeyStatus.owner)
        ↔ ((key ≡ fresh) × (key ≢ "")))
      × (key ≢ fresh
          → (key_status (some key) (transfer_owner o switched fresh r) ≡ KeyStatus.former_owner)
            ↔ (held_by (some key) r ≡ true))
      × ((transfer_owner o switched fresh r).inherited_pending ≡ r.pending_commands)
unfolding key_status transfer_owner held_by
key_status-transfer r o switched fresh key = (
  ground (arith, eq_iff key fresh, eq_iff key ""),
  λ ne. ground (arith, eq_iff key fresh, eq_iff key ""),
  refl,
)
