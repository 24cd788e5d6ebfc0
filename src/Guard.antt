-- ===== src/Guard.antt =====
-- odoo_sheller/guard.py: which requests the daemon answers at all. `lower` is `str.lower`, and
-- `is_loopback_ip` is `ipaddress.ip_address(text).is_loopback`, false where that raises.
pub mod Addressed
use odoo_sheller.Common.{
  ℕ, code, String, Bool, true, false, not, ◌&&◌, ◌||◌, Option, none, some, List, [], ◌∷◌, leb,
  if◌then◌else◌, ◌==◌, string_eq, nat_eq, is_some, all_chars, is_digit, is_alnum, starts_with,
  concat, cut_from, skip, text_length,
}

pub record Net : Type 0 where
  pub lower : String → String
  pub is_loopback_ip : String → Bool

abbrev is_name_char : ℕ → Bool
is_name_char c = is_alnum c || c == b'.' || c == b'-'

-- `[0-9A-Fa-f:.]`
abbrev is_v6_char : ℕ → Bool
is_v6_char c =
    is_digit c || (leb b'a' c && leb c b'f') || (leb b'A' c && leb c b'F') || c == b':' || c == b'.'

abbrev some_of : (ℕ → Bool) → String → Bool
some_of p s = not (s == "") && all_chars p s

-- `[0-9]{1,5}`
abbrev is_port : String → Bool
is_port s = some_of is_digit s && leb (text_length s) 5

-- What may stand behind a name in brackets: nothing, or a colon and a port.
unfoldable pub is_port_part : String → Bool
is_port_part String.[] = true
is_port_part (String.◌∷◌ c s) = code c == b':' && is_port s

-- `_AUTHORITY`, fully matched: the group `name`.
unfoldable pub authority_name : String → Option String
authority_name String.[] = none
authority_name (String.◌∷◌ c s) =
    if code c == b'['
    then (let (inner, behind) = cut_from b']' s in
        elim behind [
          | none ↦ none
          | some port ↦
              if some_of is_v6_char inner && is_port_part port
              then some (concat ("[" ∷ inner ∷ "]" ∷ []))
              else none
        ])
    else (let (name, behind) = cut_from b':' (String.◌∷◌ c s) in
        let has_port : Bool = elim behind [ none ↦ true | some port ↦ is_port port ] in
        if some_of is_name_char name && has_port then some name else none)

-- `name.strip("[]")`, of a name that `_AUTHORITY` matched
abbrev pub no_brackets : String → String
no_brackets String.[] = ""
no_brackets (String.◌∷◌ c s) = if code c == b'[' then (cut_from b']' s).0 else String.◌∷◌ c s

-- `ORIGIN_RE`, fully matched: the group `authority`.
unfoldable pub origin_authority : String → Option String
origin_authority s =
    let rest =
      if starts_with s "https://"
      then some (skip 8 s)
      else if starts_with s "http://"
      then some (skip 7 s)
      else none in
    elim rest [
      | none ↦ none
      | some authority ↦ if is_some (authority_name authority) then some authority else none
    ]

pub data RequestRefusal : Type 0 where
  foreign_host foreign_origin : RequestRefusal

-- The values of the headers of one name.
unfoldable pub values_of : String → List (String × String) → List String
values_of name [] = []
values_of name ((n, v) ∷ headers) =
    let rest = values_of name headers in if n == name then v ∷ rest else rest

module _ (net : Net) where
  -- `_is_loopback`
  unfoldable pub is_loopback : String → Bool
  is_loopback name =
      net.lower name == "localhost" || net.is_loopback_ip (no_brackets (net.lower name))

  unfoldable pub host_is_loopback : String → Bool
  host_is_loopback host = elim (authority_name host) [ none ↦ false | some name ↦ is_loopback name ]

  unfoldable pub origin_is_own : String → String → Bool
  origin_is_own host origin = elim (origin_authority origin) [
    | none ↦ false
    | some authority ↦ net.lower authority == net.lower host
  ]

  -- What is made of the origins that come with one host.
  unfoldable pub origin_refusal : String → List String → Option RequestRefusal
  origin_refusal host [] = none
  origin_refusal host (origin ∷ []) =
      if origin_is_own host origin then none else some foreign_origin
  origin_refusal host (origin ∷ second ∷ more) = some foreign_origin

  unfoldable pub judged : List String → List String → Option RequestRefusal
  judged [] origins = some foreign_host
  judged (host ∷ []) origins =
      if not (host_is_loopback host) then some foreign_host else origin_refusal host origins
  judged (host ∷ second ∷ more) origins = some foreign_host

  -- `refusal`: a header sent twice is ambiguous.
  unfoldable pub refusal : List (String × String) → Option RequestRefusal
  refusal headers = judged (values_of "host" headers) (values_of "origin" headers)

  -- `LoopbackOnly.__call__`: what is answered in the application's place, for the kinds of scope that
  -- are checked; `websocket` says which of the two it is.
  unfoldable pub answered_instead :
      (checked websocket : Bool) → List (String × String) → Option (ℕ × RequestRefusal)
  answered_instead checked websocket headers =
      if not checked then none else (elim (refusal headers) [
        | none ↦ none
        | some r ↦ some ((if websocket then 1008 else 403), r)
      ])
