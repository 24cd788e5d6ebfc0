-- ===== src/Mcp.antt =====
-- odoo_sheller/mcp.py: the tools that an agent calls, each of which calls the daemon over HTTP. What
-- the daemon answers is an argument of a tool, one for each call that it makes; a dictionary with
-- "error" is a refusal by its code. Texts that tell an agent what to do next are left out.
pub mod Pages
pub mod Tools
pub mod Results
pub mod Runs
use odoo_sheller.Common.{
  ℕ, ◌-◌, code, String, ◌⊎◌, inl, inr, Bool, true, false, not, Option, none, some, List, [], ◌∷◌,
  ◌++◌, ltb, leb, if◌then◌else◌, ◌==◌, string_eq, nat_eq, keep, lookup, text_append, concat, skip,
  text_length, take_text,
}

-- What httpx gives back: no answer in time, no daemon, or a response. Of that, the status, what json
-- makes of the body if it is json, its words, and the code in an error's `detail`.
pub record Response (A : Type 0) : Type 0 where
  pub status : ℕ
  pub json : Option A
  pub words : String
  pub detail : Option String

pub data Wire (A : Type 0) : Type 0 where
  timed_out unreachable : Wire A
  response : Response A → Wire A

-- The answer of `_call`; `text` is the dictionary of a response that is not json.
pub data Reply (A : Type 0) : Type 0 where
  refused : String → Reply A
  got : A → Reply A
  text : String → Reply A

-- What `_call` makes of it; `shown` is `str`.
unfoldable pub call_reply : {A : Type 0} → (ℕ → String) → Wire A → Reply A
call_reply shown timed_out = refused "request_timed_out"
call_reply shown unreachable = refused "daemon_unreachable"
call_reply shown (response r) =
    if ltb r.status 400
    then elim r.json [ some a ↦ got a | none ↦ text r.words ]
    else elim r.detail [
      | some code ↦ refused code
      | none ↦ refused (text_append "http_" (shown r.status))
    ]

-- One request, with the session that its key is looked up by, if there is one, and that key.
pub record Sent : Type 0 where
  pub method : String
  pub path : String
  pub session : Option String
  pub key : Option String

-- `_keys`, by session, and `_rules_given`; `sent` is what has left the process.
pub record Server : Type 0 where
  pub held : List (String × String)
  pub rules_given : List ℕ
  pub sent : List Sent

abbrev pub forget : String → List (String × String) → List (String × String)
forget id keys = keep (λ e. not (e.0 == id)) keys

-- `_keys[id] = key`: a key that is there keeps its place.
abbrev pub hold : String → String → List (String × String) → List (String × String)
hold id key [] = (id, key) ∷ []
hold id key ((j, k) ∷ m) =
    let later = hold id key m in if j == id then (j, key) ∷ m else (j, k) ∷ later

-- The header of `_call`: an id that is absent or empty sends none.
abbrev pub header : Option String → Server → Option String
header none s = none
header (some id) s = if id == "" then none else lookup id s.held

-- The path of a session, and of what is below it.
abbrev pub session_path : String → String → String
session_path id tail = concat ("/api/sessions/" ∷ id ∷ tail ∷ [])

abbrev pub request_of : String → String → Option String → Server → Sent
request_of method path about s = record {
  method = method;
  path = path;
  session = about;
  key = header about s;
}

-- What a call about a session, or about none, leaves behind.
unfoldable pub call : String → String → Option String → Server → Server
call method path about s = record s { sent = s.sent ++ request_of method path about s ∷ [] }

-- `_default_session`
unfoldable pub default_session : Option String → Server → String ⊎ String
default_session asked s =
    let owned : String ⊎ String = elim s.held [
      | [] ↦ inl "no_session"
      | e ∷ rest ↦ elim rest [ [] ↦ inr e.0 | _ ∷ _ ↦ inl "ambiguous_session" ]
    ] in
    elim asked [ none ↦ owned | some id ↦ if id == "" then owned else inr id ]

-- `_clip` and `_clip_tail`, with whether something was dropped
unfoldable pub clip : ℕ → Option String → Option String × Bool
clip limit none = (none, false)
clip limit (some t) =
    if leb (text_length t) limit then (some t, false) else (some (take_text limit t), true)

unfoldable pub clip_tail : ℕ → String → String × Bool
clip_tail limit t =
    if leb (text_length t) limit then (t, false) else (skip (text_length t - limit) t, true)
