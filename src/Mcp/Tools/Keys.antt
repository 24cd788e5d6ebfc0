-- ===== src/Mcp/Tools/Keys.antt =====
-- Which keys the server of odoo_sheller/mcp.py holds and sends.
use odoo_sheller.Mcp.Results.{RunFrame}
use odoo_sheller.Common.{
  ℕ, code, String, inl, inr, Bool, true, false, not, Option, none, some, List, [], ◌∷◌, ltb,
  if◌then◌else◌, ◌==◌, string_eq, nat_eq, Bool-cases, Option-cases, sum-cases, All, contains,
}
use odoo_sheller.Mcp.{
  Reply, refused, got, text, Server, forget, hold, session_path, call, default_session,
}
use odoo_sheller.Mcp.Tools.{
  Described, Opened, os_list_sessions, os_open_session, is_owner, os_attach_session, on_session,
  os_close_session, inherited_of, os_commit,
}
use odoo_sheller.Mcp.Runs.{RunArgs, run_refused, run_test_in, fresh_run, os_run_test}
use odoo_sheller.Mcp.Tools.Held.{
  IsSound, Holds-hold, Holds-keep, call-IsSound, held-IsSound, with_rules-IsSound,
}

-- A call of a tool, with what the daemon answers to it. `describing` is the question about a session
-- that `os_list_tests` asks, `reading` a request that is made with no session's key: of `os_history`,
-- `os_journal`, `os_test_result`, `os_list_containers` and `os_list_tests`.
pub data Use : Type 0 where
  listing : Reply (List String) → Use
  opening : (ℕ → Option String) → Reply Opened → Use
  attaching : (ℕ → Option String) → String → String → Reply Described → Use
  command : (method tail : String) → Option String → Reply (Option String) → Use
  committing : Option String → Bool → Reply Described → Reply (Option String) → Use
  closing : Option String → Reply (Option String) → Use
  running : RunArgs → Reply Opened → Reply RunFrame → Use
  describing : String → Use
  reading : (method path : String) → Use

unfoldable pub use_tool : Use → Server → Server
use_tool (listing r) s = (os_list_sessions r s).0
use_tool (opening rules r) s = (os_open_session rules r s).0
use_tool (attaching rules id key r) s = (os_attach_session rules id key r s).0
use_tool (command method tail asked r) s = (on_session method tail asked r s).0
use_tool (committing asked all_of_it d r) s = (os_commit asked all_of_it d r s).0
use_tool (closing asked r) s = (os_close_session asked r s).0
use_tool (running a opened r) s = (os_run_test a opened r s).0
use_tool (describing id) s = call "GET" (session_path id "") (some id) s
use_tool (reading method path) s = call method path none s

unfoldable pub use_tools : List Use → Server → Server
use_tools [] s = s
use_tools (u ∷ us) s = use_tools us (use_tool u s)

-- `G id key`: the key was given for this session, by the daemon that opened it or by the caller.
module _ (G : String → String → Type 0) where
  abbrev pub Gives : Use → Type 0
  Gives (opening rules (got o)) = G o.id o.write_key
  Gives (attaching rules id key r) = G id key
  Gives (running a (got o) r) = G o.id o.write_key
  Gives _ = Unit {0}

  attach-IsSound :
      (rules : ℕ → Option String) (id key : String) (r : Reply Described) (s : Server)
      → G id key
      → IsSound G s
      → IsSound G (os_attach_session rules id key r s).0
  unfolding os_attach_session
  attach-IsSound rules id key r s g v =
      let first : Server = record s { held = hold id key s.held } in
      let path = session_path id "" in
      let asked = call "GET" path (some id) first in
      let kept : IsSound G asked =
        call-IsSound G "GET" path (some id) first
          (held-IsSound G _ s (Holds-hold G id key s.held g v.holds) v) in
      let dropped : IsSound G (record asked { held = forget id asked.held }) =
        held-IsSound G _ asked (Holds-keep G (λ e. not (e.0 == id)) asked.held kept.holds) kept in
      elim r as (λ x. IsSound G (os_attach_session rules id key x s).0) [
        | refused code ↦ dropped
        | text words ↦ with_rules-IsSound G rules none asked kept
        | got d ↦ elim (Bool-cases (is_owner d.key_status)) [
          | inl e ↦ rw e (with_rules-IsSound G rules d.odoo asked kept)
          | inr e ↦ rw e dropped
        ]
      ]

  command-IsSound :
      (method tail : String) (asked : Option String) (r : Reply (Option String)) (s : Server)
      → IsSound G s
      → IsSound G (on_session method tail asked r s).0
  unfolding on_session
  command-IsSound method tail asked r s v = elim (sum-cases (default_session asked s)) [
    | inl (why, e) ↦ rw (e, on_session) v
    | inr (id, e) ↦ rw (e, on_session) (call-IsSound G method (session_path id tail) (some id) s v)
  ]

  closing-IsSound :
      (asked : Option String) (r : Reply (Option String)) (s : Server)
      → IsSound G s
      → IsSound G (os_close_session asked r s).0
  unfolding os_close_session
  closing-IsSound asked r s v = elim (sum-cases (default_session asked s)) [
    | inl (why, e) ↦ rw (e, os_close_session) v
    | inr (id, e) ↦
        let fewer = Holds-keep G (λ k. not (k.0 == id)) s.held v.holds in
        rw (e, os_close_session)
          (held-IsSound G _ (call "DELETE" (session_path id "") (some id) s) fewer
            (call-IsSound G "DELETE" (session_path id "") (some id) s v))
  ]

  committing-IsSound :
      (asked : Option String) (all_of_it : Bool) (d : Reply Described) (r : Reply (Option String))
      (s : Server)
      → IsSound G s
      → IsSound G (os_commit asked all_of_it d r s).0
  unfolding os_commit
  committing-IsSound asked all_of_it d r s v = elim (sum-cases (default_session asked s)) [
    | inl (why, e) ↦ rw (e, os_commit) v
    | inr (id, e) ↦
        let ask = call "GET" (session_path id "") (some id) s in
        let asks = call-IsSound G "GET" (session_path id "") (some id) s v in
        let once = call-IsSound G "POST" (session_path id "/commit") (some id) s v in
        let twice = call-IsSound G "POST" (session_path id "/commit") (some id) ask asks in
        elim (Bool-cases all_of_it) [
          | inl whole ↦ rw (e, os_commit) (rw whole once)
          | inr part ↦ elim (Bool-cases (ltb 0 (inherited_of d))) [
            | inl t ↦ rw (e, os_commit) (rw part (rw t asks))
            | inr t ↦ rw (e, os_commit) (rw part (rw t twice))
          ]
        ]
  ]

  opened-IsSound :
      (id key : String) (s : Server)
      → G id key
      → IsSound G s
      → IsSound G (record (call "POST" "/api/sessions" none s) { held = hold id key s.held })
  opened-IsSound id key s g v =
      held-IsSound G _ (call "POST" "/api/sessions" none s) (Holds-hold G id key s.held g v.holds)
        (call-IsSound G "POST" "/api/sessions" none s v)

  fresh-IsSound :
      (a : RunArgs) (opened : Reply Opened) (r : Reply RunFrame) (s : Server)
      → Gives (running a opened r)
      → IsSound G s
      → IsSound G (fresh_run a opened r s).0
  unfolding fresh_run run_test_in
  fresh-IsSound a (refused why) r s g v = call-IsSound G "POST" "/api/sessions" none s v
  fresh-IsSound a (text words) r s g v = call-IsSound G "POST" "/api/sessions" none s v
  fresh-IsSound a (got o) r s g v =
      call-IsSound G "POST" (session_path o.id "/run_test") (some o.id) _
        (opened-IsSound o.id o.write_key s g v)

  given-IsSound :
      (empty : Bool) (id : String) (a : RunArgs) (opened : Reply Opened) (r : Reply RunFrame)
      (s : Server)
      → Gives (running a opened r)
      → IsSound G s
      → IsSound G (if empty then fresh_run a opened r s else run_test_in false id a r s).0
  unfolding run_test_in
  given-IsSound true id a opened r s g v = fresh-IsSound a opened r s g v
  given-IsSound false id a opened r s g v =
      call-IsSound G "POST" (session_path id "/run_test") (some id) s v

  running-IsSound :
      (a : RunArgs) (opened : Reply Opened) (r : Reply RunFrame) (s : Server)
      → Gives (running a opened r)
      → IsSound G s
      → IsSound G (os_run_test a opened r s).0
  unfolding os_run_test
  running-IsSound a opened r s g v = elim (Option-cases (run_refused a)) [
    | inr (why, e) ↦ rw (e, os_run_test) v
    | inl e ↦ elim (Option-cases a.session_id) [
      | inl none_of ↦ rw (e, none_of, os_run_test) (fresh-IsSound a opened r s g v)
      | inr (id, given) ↦ rw (e, given, os_run_test) (given-IsSound (id == "") id a opened r s g v)
    ]
  ]

  use_tool-IsSound : (u : Use) (s : Server) → Gives u → IsSound G s → IsSound G (use_tool u s)
  unfolding use_tool os_list_sessions os_open_session
  use_tool-IsSound (listing (refused why)) s g v = call-IsSound G "GET" "/api/sessions" none s v
  use_tool-IsSound (listing (text words)) s g v = call-IsSound G "GET" "/api/sessions" none s v
  use_tool-IsSound (listing (got ids)) s g v =
      held-IsSound G _ (call "GET" "/api/sessions" none s)
        (Holds-keep G (λ e. contains ids e.0) s.held v.holds)
        (call-IsSound G "GET" "/api/sessions" none s v)
  use_tool-IsSound (opening rules (refused why)) s g v =
      call-IsSound G "POST" "/api/sessions" none s v
  use_tool-IsSound (opening rules (text words)) s g v =
      call-IsSound G "POST" "/api/sessions" none s v
  use_tool-IsSound (opening rules (got o)) s g v =
      with_rules-IsSound G rules o.version _ (opened-IsSound o.id o.write_key s g v)
  use_tool-IsSound (attaching rules id key r) s g v = attach-IsSound rules id key r s g v
  use_tool-IsSound (command method tail asked r) s g v = command-IsSound method tail asked r s v
  use_tool-IsSound (committing asked all_of_it d r) s g v =
      committing-IsSound asked all_of_it d r s v
  use_tool-IsSound (closing asked r) s g v = closing-IsSound asked r s v
  use_tool-IsSound (running a opened r) s g v = running-IsSound a opened r s g v
  use_tool-IsSound (describing id) s g v = call-IsSound G "GET" (session_path id "") (some id) s v
  use_tool-IsSound (reading method path) s g v = call-IsSound G method path none s v

  -- However the tools are called, runs of tests included, and whatever the daemon answers: a key that
  -- the server holds, and the key that it sends with a request, was given for just that session, by
  -- the daemon when it opened it or by a caller of attach; and a request about no session carries no key.
  pub use_tools-IsSound :
      (us : List Use) (s : Server) → All Gives us → IsSound G s → IsSound G (use_tools us s)
  unfolding use_tools
  use_tools-IsSound [] s g v = v
  use_tools-IsSound (u ∷ us) s (g, gs) v =
      use_tools-IsSound us (use_tool u s) gs (use_tool-IsSound u s g v)
