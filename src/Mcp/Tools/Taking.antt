-- ===== src/Mcp/Tools/Taking.antt =====
-- The key that odoo_sheller/mcp.py holds for a session that is taken over, with the daemon's
-- odoo_sheller/api.py and odoo_sheller/session.py behind the call, and the requests of a commit.
use odoo_sheller.Common.{
  ℕ, ◌<◌, String, ◌≡◌, refl, ap, ◌∙◌, inl, inr, false, Option, none, some, List, [], ◌∷◌, ◌++◌,
  arith, eq_iff, if◌then◌else◌, ◌==◌, string_eq, nat_eq, Bool-cases, lookup, concat,
}
use odoo_sheller.Session.Rights.{Rights, key_status}
use odoo_sheller.Api.{presented_status}
use odoo_sheller.Mcp.{
  Reply, got, Sent, Server, forget, hold, header, session_path, call, default_session,
}
use odoo_sheller.Mcp.Tools.{
  Described, with_rules, is_owner, os_attach_session, boundary_result, inherited_of, os_commit,
}

lookup-hold :
    (id key j : String) (m : List (String × String))
    → lookup j (hold id key m) ≡ (if id == j then some key else lookup j m)
lookup-hold id key j [] = refl
lookup-hold id key j ((i, k) ∷ m) =
    ground (arith, eq_iff i id, eq_iff i j, eq_iff id j, lookup-hold id key j m)

lookup-forget :
    (id j : String) (m : List (String × String))
    → lookup j (forget id m) ≡ (if id == j then none else lookup j m)
lookup-forget id j [] = ground arith
lookup-forget id j ((i, k) ∷ m) = elim (Bool-cases (i == id)) [
  | inl e ↦ rw e (ground (arith, e, eq_iff i id, eq_iff i j, eq_iff id j, lookup-forget id j m))
  | inr e ↦ rw e (ground (arith, e, eq_iff i id, eq_iff i j, eq_iff id j, lookup-forget id j m))
]

with_rules-held :
    (for_major : ℕ → Option String) (odoo : Option String) (s : Server)
    → (with_rules for_major odoo s).0.held ≡ s.held
unfolding with_rules
with_rules-held for_major odoo s = ground arith

presented_is_owner :
    (key : String) (r : Rights)
    → (key == "") ≡ false
    → is_owner (presented_status (some key) r) ≡ (key == r.write_key)
unfolding presented_status key_status
presented_is_owner key r real = ground (arith, real)

-- An agent that takes over a session with a key that is not empty holds the key afterwards exactly
-- if it is the one that types there, and holds none for the session otherwise, even if it held one
-- before; `reply` is what the daemon says of the session with the key that the server sends. Keys
-- of other sessions stay as they were.
pub os_attach_session-held :
    (for_major : ℕ → Option String) (id key : String) (d : Described) (r : Rights) (s : Server)
    → (id == "") ≡ false
    → (key == "") ≡ false
    → d.key_status ≡ presented_status (header (some id) (record s { held = hold id key s.held })) r
    → (j : String)
    → lookup j (os_attach_session for_major id key (got d) s).0.held
      ≡ (if id == j then (if key == r.write_key then some key else none) else lookup j s.held)
unfolding os_attach_session call
os_attach_session-held for_major id key d r s named real said j =
    let asked =
      call "GET" (session_path id "") (some id) (record s { held = hold id key s.held }) in
    let own : header (some id) (record s { held = hold id key s.held }) ≡ some key =
      rw named (lookup-hold id key id s.held ∙ ground (arith, eq_iff id id)) in
    let status : is_owner d.key_status ≡ (key == r.write_key) =
      ap is_owner (said ∙ ap (λ k. presented_status k r) own) ∙ presented_is_owner key r real in
    elim (Bool-cases (key == r.write_key)) [
      | inl e ↦ rw (status ∙ e) (
          rw e
            (ap (lookup j) (with_rules-held for_major d.odoo asked) ∙ lookup-hold id key j s.held))
      | inr e ↦ rw (status ∙ e) (
          rw e
            (lookup-forget id j (hold id key s.held) ∙ ground (arith, lookup-hold id key j s.held)))
    ]

default_given :
    (id : String) (s : Server) → (id == "") ≡ false → default_session (some id) s ≡ inr id
unfolding default_session
default_given id s named = rw named

-- Without `include_inherited`, a commit is asked for exactly if the daemon does not describe the
-- session as one with inherited work. If it does, the one request that leaves is a GET of the
-- session, and the tool says so; if it describes none, or the question is refused or not answered in
-- time, a POST to the session's `/commit` follows, and the tool's answer is the daemon's. All are
-- sent with the session's own key, if one is held.
pub os_commit_lem :
    (id : String) (describe : Reply Described) (answer : Reply (Option String)) (s : Server)
    → (id == "") ≡ false
    → let t = os_commit (some id) false describe answer s in
      let own = lookup id s.held in
      let asks : Sent = record {
        method = "GET";
        path = concat ("/api/sessions/" ∷ id ∷ "" ∷ []);
        session = some id;
        key = own;
      } in
      let commits : Sent = record {
        method = "POST";
        path = concat ("/api/sessions/" ∷ id ∷ "/commit" ∷ []);
        session = some id;
        key = own;
      } in
      (0 < inherited_of describe
        → (t.0.sent ≡ s.sent ++ asks ∷ []) × (t.1 ≡ inl "inherited_pending"))
      × (inherited_of describe ≡ 0
          → (t.0.sent ≡ (s.sent ++ asks ∷ []) ++ commits ∷ []) × (t.1 ≡ boundary_result answer))
      × (t.0.held ≡ s.held)
unfolding os_commit call
os_commit_lem id describe answer s named =
    let owned = default_given id s named in
    (
      (λ some_work. (ground (arith, owned, some_work), ground (arith, owned, some_work))),
      (λ no_work. (ground (arith, owned, no_work), ground (arith, owned, no_work))),
      ground (arith, owned),
    )
