-- ===== src/Api/Opening.antt =====
-- What `open_session` of odoo_sheller/api.py asks of a request before a session is opened.
use odoo_sheller.Common.{
  String, ◌⊎◌, inl, inr, Bool, true, false, not, ◌&&◌, ◌||◌, Option, none, some, ltb, if◌then◌else◌,
  ◌==◌, string_eq, nat_eq, is_some, length,
}
use odoo_sheller.Api.{Denied, needs_a_human, is_admin}
use odoo_sheller.AgentCommit.{SwitchFile, read_switches}
use odoo_sheller.Registry.{switched_on}

-- The fields of `OpenBody` that the guards read; the owner's kind is whether it is a human.
pub record OpenBody : Type 0 where
  pub container : Option String
  pub owner : Option (Bool × Option String)
  pub allow_commit : Option Bool
  pub target_id : Option String

abbrev is_given : Option String → Bool
is_given none = false
is_given (some s) = not (s == "")

abbrev is_true : Option Bool → Bool
is_true (some true) = true
is_true _ = false

abbrev pub is_agents : Option (Bool × Option String) → Bool
is_agents none = false
is_agents (some (is_a_human, label)) = not is_a_human

-- `_any_switched_on`
unfoldable pub any_switched_on : SwitchFile → Bool
any_switched_on f = elim (read_switches f) [ inl p ↦ false | inr es ↦ ltb 0 (length es) ]

-- `agent_commit_allows`: `name` is docker's name for the container.
unfoldable pub agent_commit_allows : Option String → Option String → SwitchFile → Bool
agent_commit_allows container name f = is_given container && any_switched_on f && switched_on name f

-- The `allow_commit` that is passed on to the registry, or the refusal.
unfoldable pub open_guard :
    String → Option String → (origin : Option String) → Bool → OpenBody → Denied ⊎ Option Bool
open_guard admin admin_key origin allowed_by_switch body =
    if is_given body.target_id && not (is_given origin || is_admin admin admin_key)
    then inl needs_a_human
    else if is_true body.allow_commit && is_agents body.owner && not (is_admin admin admin_key)
    then (if not (is_some body.target_id) && allowed_by_switch then inr none else inl needs_a_human)
    else inr body.allow_commit
