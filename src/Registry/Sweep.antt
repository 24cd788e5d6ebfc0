-- ===== src/Registry/Sweep.antt =====
-- What `set_agent_commit` of odoo_sheller/registry.py leaves behind in the sessions.
use odoo_sheller.Common.{
  String, ◌≡◌, refl, sym, ap, ◌∙◌, subst, ◌≢◌, inl, inr, Bool, true, false, not, ◌&&◌, some, List,
  [], ◌∷◌, arith, eq_iff, Bool-cases, Option-cases, sum-cases, All,
}
use odoo_sheller.AgentCommit.{SwitchFile, turn_on, turn_off}
use odoo_sheller.Session.Rights.{is_human, is_agent, switch_covers, apply_container_switch}
use odoo_sheller.Transport.{on_production}
use odoo_sheller.Registry.{
  Registered, Registry, switched_on, is_swept, sweep_one, swept, firsts, unlogged, set_agent_commit,
}
use odoo_sheller.AgentCommit.Switching.{turn_on-is_on}

-- A sweep that is not broken off has looked at every session.
All-swept :
    (P : Registered → Type 0) (c : String) (on : Bool) (f : SwitchFile) (can_log : String → Bool)
    (rs : List Registered)
    → (swept c on f can_log rs).0 ≡ false
    → ((r : Registered) → P (sweep_one c on f r).0)
    → All P (firsts (swept c on f can_log rs).1)
unfolding swept
All-swept P c on f can_log [] whole h = tt
All-swept P c on f can_log (r ∷ rs) whole h =
    elim (Bool-cases ((sweep_one c on f r).1 && not (can_log r.id))) [
      | inl e ↦ absurd (ground (arith, whole, e))
      | inr e ↦ rw e (h r, All-swept P c on f can_log rs (ground (arith, whole, e)) h)
    ]

-- A session that the sweep looks at and that may commit is a human's.
abbrev pub Revoked : String → Registered → Type 0
Revoked c r =
    is_swept c r ≡ true → r.session.allow_commit ≡ true → is_human r.session.owner.kind ≡ true

sweep_one-Revoked :
    (c : String) (f : SwitchFile) (r : Registered) → Revoked c (sweep_one c false f r).0
unfolding sweep_one apply_container_switch
sweep_one-Revoked c f r h k = ground arith

-- An agent's session that the sweep looks at, that is not on production and did not opt out, may
-- commit.
abbrev pub Opened : String → Registered → Type 0
Opened c r =
    is_swept c r ≡ true
    → is_agent r.session.owner.kind ≡ true
    → on_production r.session.target ≡ false
    → r.session.opted_out ≡ false
    → r.session.allow_commit ≡ true

sweep_one-Opened :
    (c : String) (f : SwitchFile) (r : Registered)
    → switched_on (some c) f ≡ true
    → Opened c (sweep_one c true f r).0
unfolding sweep_one apply_container_switch switch_covers
sweep_one-Opened c f r s h a p o = elim (Option-cases r.container_name) [
  | inl e ↦ absurd (ground arith)
  | inr (n, e) ↦
      let same : n ≡ c = ground (arith, eq_iff n c) in
      let on : switched_on r.container_name f ≡ true =
        subst (λ x. switched_on x f ≡ true) (sym (e ∙ ap some same)) s in
      ground (arith, on)
]

swept-whole :
    (c : String) (on : Bool) (f : SwitchFile) (can_log : String → Bool) (rs : List Registered)
    → ((id : String) → can_log id ≡ true)
    → (swept c on f can_log rs).0 ≡ false
unfolding swept
swept-whole c on f can_log [] h = refl
swept-whole c on f can_log (r ∷ rs) h =
    let fine : ((sweep_one c on f r).1 && not (can_log r.id)) ≡ false = ground (arith, h r.id) in
    rw fine (swept-whole c on f can_log rs h)

-- Journals that take every line raise nothing.
pub all_logged :
    (can_write : Bool) (can_log : String → Bool) (c now : String) (r : Registry)
    → ((id : String) → can_log id ≡ true)
    → (set_agent_commit can_write can_log c false now r).0 ≢ inl unlogged
unfolding set_agent_commit
all_logged can_write can_log c now r h e =
    let whole = swept-whole c false r.agent_commit can_log r.sessions h in
    elim (sum-cases (turn_off can_write c r.agent_commit)) [
      | inl (p, k) ↦ absurd (ground (arith, whole, k, e))
      | inr ((was, f), k) ↦ absurd (ground (arith, whole, k, e))
    ]

-- Switching a container off takes the right from every open agent session on it, also where the
-- file cannot be read or written and the call raises: what may still commit there is a human's. It
-- does so unless what is raised comes from a session's journal.
pub set_agent_commit-off :
    (can_write : Bool) (can_log : String → Bool) (c now : String) (r : Registry)
    → (set_agent_commit can_write can_log c false now r).0 ≢ inl unlogged
    → All (Revoked c) (set_agent_commit can_write can_log c false now r).1.sessions
unfolding set_agent_commit
set_agent_commit-off can_write can_log c now r logged =
    let after = swept c false r.agent_commit can_log r.sessions in
    elim (Bool-cases after.0) [
      | inl e ↦ absurd (logged (rw (set_agent_commit, e) refl))
      | inr e ↦
          let all =
            All-swept (Revoked c) c false r.agent_commit can_log r.sessions e
              (sweep_one-Revoked c r.agent_commit) in
          let same : (set_agent_commit can_write can_log c false now r).1.sessions
              ≡ firsts after.1 =
            elim (sum-cases (turn_off can_write c r.agent_commit)) [
              | inl (p, k) ↦ rw (set_agent_commit, e, k) refl
              | inr ((was, f), k) ↦ rw (set_agent_commit, e, k) refl
            ] in
          subst (All (Revoked c)) (sym same) all
    ]

-- Switching a container on, where the call succeeds, gives the right to every open agent session
-- on it that is not on production and was not opened without it.
pub set_agent_commit-on :
    (can_write : Bool) (can_log : String → Bool) (c now : String) (r s : Registry)
    (ids : List String)
    → set_agent_commit can_write can_log c true now r ≡ (inr ids, s)
    → All (Opened c) s.sessions
unfolding set_agent_commit switched_on
set_agent_commit-on can_write can_log c now r s ids h =
    elim (sum-cases (turn_on can_write c now r.agent_commit)) [
      | inl (p, e) ↦ absurd (ground arith)
      | inr ((made, f), e) ↦
          let after = swept c true f can_log r.sessions in
          let read = (turn_on-is_on can_write can_write c now now r.agent_commit f made e).0 in
          let on : switched_on (some c) f ≡ true = ground (arith, read) in
          let whole : after.0 ≡ false = ground (arith, h, e) in
          let all =
            All-swept (Opened c) c true f can_log r.sessions whole
              (λ x. sweep_one-Opened c f x on) in
          let same : firsts after.1 ≡ s.sessions = ground (arith, h, e) in
          subst (All (Opened c)) same all
    ]
