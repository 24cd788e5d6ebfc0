-- ===== src/Mcp/Tools.antt =====
-- The tools of odoo_sheller/mcp.py that open, take and end sessions, and the two ends of a
-- transaction. A refusal is its code; where the daemon's answer lacks what the code takes from it,
-- the code raises, which is a refusal by the exception's name.
pub mod Held
pub mod Keys
pub mod Taking
use odoo_sheller.Common.{
  ℕ, code, String, ◌⊎◌, inl, inr, Bool, true, false, Option, none, some, List, ◌∷◌, map, ltb,
  if◌then◌else◌, string_eq, nat_eq, is_some, keep, contains, lookup,
}
use odoo_sheller.Session.Rights.{KeyStatus, owner, key_status}
use odoo_sheller.Rules.{major_of}
use odoo_sheller.Mcp.{
  Reply, refused, got, text, Server, forget, hold, session_path, call, default_session,
}

-- What the tools read of a session that the daemon describes, and of one that it has opened.
pub record Described : Type 0 where
  pub key_status : Option KeyStatus
  pub inherited_pending : ℕ
  pub odoo : Option String

pub record Opened : Type 0 where
  pub id : String
  pub write_key : String
  pub version : Option String

-- What `_with_rules` adds: nothing for this major, where they can be read again, or the rules.
pub data Rules : Type 0 where
  no_rules : Rules
  pointer : ℕ → Rules
  handed_over : ℕ → String → Rules

-- `_with_rules`; `for_major` is that of odoo_sheller/rules/__init__.py, which reads files.
unfoldable pub with_rules : (ℕ → Option String) → Option String → Server → Server × Rules
with_rules for_major odoo s = elim (major_of odoo) [
  | none ↦ (s, no_rules)
  | some major ↦ elim (for_major major) [
    | none ↦ (s, no_rules)
    | some words ↦
        if contains s.rules_given major
        then (s, pointer major)
        else (record s { rules_given = major ∷ s.rules_given }, handed_over major words)
  ]
]

-- `os_list_sessions`: the ids, each with whether this server holds its key.
unfoldable pub os_list_sessions :
    Reply (List String) → Server → Server × (String ⊎ List (String × Bool))
unfolding call
os_list_sessions (refused code) s = (call "GET" "/api/sessions" none s, inl code)
os_list_sessions (text words) s = (call "GET" "/api/sessions" none s, inl "text")
os_list_sessions (got ids) s =
    let live : List (String × String) = keep (λ e. contains ids e.0) s.held in
    (
      record (call "GET" "/api/sessions" none s) { held = live },
      inr (map (λ id. (id, is_some (lookup id live))) ids),
    )

-- `os_open_session`
unfoldable pub os_open_session :
    (ℕ → Option String) → Reply Opened → Server → Server × (String ⊎ Rules)
unfolding call with_rules
os_open_session for_major (refused code) s = (call "POST" "/api/sessions" none s, inl code)
os_open_session for_major (text words) s = (call "POST" "/api/sessions" none s, inl "KeyError")
os_open_session for_major (got o) s =
    let opened : Server = record (call "POST" "/api/sessions" none s) {
      held = hold o.id o.write_key s.held;
    } in
    let (after, given) = with_rules for_major o.version opened in (after, inr given)

-- What `key_status` is taken to be; the daemon leaves it out where no key came with the request.
abbrev pub is_owner : Option KeyStatus → Bool
is_owner none = true
is_owner (some KeyStatus.owner) = true
is_owner (some _) = false

-- `os_attach_session`
unfoldable pub os_attach_session :
    (ℕ → Option String) → String → String → Reply Described → Server → Server × (String ⊎ Rules)
unfolding call with_rules
os_attach_session for_major id key reply s =
    let asked =
      call "GET" (session_path id "") (some id) (record s { held = hold id key s.held }) in
    let dropped : Server = record asked { held = forget id asked.held } in
    elim reply [
      | refused code ↦ (dropped, inl code)
      | text words ↦ (let (after, given) = with_rules for_major none asked in (after, inr given))
      | got d ↦
          if is_owner d.key_status
          then (let (after, given) = with_rules for_major d.odoo asked in (after, inr given))
          else (dropped, inl "not_owner")
    ]

-- A tool that makes one call about a session, `tail` below its path: `os_session`, `os_interrupt`,
-- `os_rollback`, and `os_exec` and `os_source` as far as their call.
unfoldable pub on_session :
    {A : Type 0} → (method tail : String) → Option String → Reply A → Server → Server × (String ⊎ A)
unfolding call default_session
on_session method tail asked reply s = elim (default_session asked s) [
  | inl code ↦ (s, inl code)
  | inr id ↦ (
    call method (session_path id tail) (some id) s,
    elim reply [ refused code ↦ inl code | text words ↦ inl "text" | got a ↦ inr a ],
  )
]

-- `os_close_session`; what the daemon answers does not matter for the key.
unfoldable pub os_close_session :
    {A : Type 0} → Option String → Reply A → Server → Server × (String ⊎ A)
unfolding call default_session
os_close_session asked reply s = elim (default_session asked s) [
  | inl code ↦ (s, inl code)
  | inr id ↦ (
    record (call "DELETE" (session_path id "") (some id) s) { held = forget id s.held },
    elim reply [ refused code ↦ inl code | text words ↦ inl "text" | got a ↦ inr a ],
  )
]

-- `_boundary_result`: the frame that answers a commit or rollback, by its error.
abbrev pub boundary_result : Reply (Option String) → String ⊎ Option String
boundary_result (refused code) = inl code
boundary_result (text words) = inr none
boundary_result (got error) = inr error

-- What was pending before the handover, as far as the answer says so.
abbrev pub inherited_of : Reply Described → ℕ
inherited_of (got d) = d.inherited_pending
inherited_of _ = 0

-- `os_commit`; `describe` is the answer to the first call, `answer` to the commit itself.
unfoldable pub os_commit :
    Option String
    → Bool
    → (describe : Reply Described) → (answer : Reply (Option String)) → Server
    → Server × (String ⊎ Option String)
unfolding call default_session
os_commit asked include_inherited describe answer s = elim (default_session asked s) [
  | inl code ↦ (s, inl code)
  | inr id ↦
      let ask = call "GET" (session_path id "") (some id) in
      let end_it = call "POST" (session_path id "/commit") (some id) in
      if include_inherited
      then (end_it s, boundary_result answer)
      else if ltb 0 (inherited_of describe)
      then (ask s, inl "inherited_pending")
      else (end_it (ask s), boundary_result answer)
]
