-- ===== src/Recipe/Parse.antt =====
-- `parse_access` of odoo_sheller/recipe.py.
use odoo_sheller.Recipe.{Access, Become}
use odoo_sheller.Common.{
  ℕ, String, Bool, true, false, not, ◌&&◌, ◌||◌, Option, none, some, List, [], ◌∷◌, ◌++◌,
  if◌then◌else◌, Eq, ◌==◌, string_eq, nat_eq, is_some, all, keep, contains, all_chars, starts_with,
  concat, has_char, split_on, skip,
}
use odoo_sheller.Recipe.Words.{
  needs_value, dash_dash, two_ats, bad_host, other_become, not_sudo, bare_word, user_twice,
  bad_flag, needs_n, two_values, not_ssh, no_destination, Result, err, ok, ◌>>=◌, Python,
  is_ssh_name, user_of, split_text, tagged,
}
use odoo_sheller.Recipe.Options.{Collected, nothing_yet, parse_option}

-- `OTHER_BECOMES`
abbrev pub other_becomes : List String
other_becomes = "su" ∷ "runuser" ∷ "doas" ∷ "pkexec" ∷ "machinectl" ∷ "sg" ∷ "newgrp" ∷ []

-- What the loop of `_parse_become` has read.
pub record Sudo : Type 0 where
  pub user : Option String
  pub home : Bool
  pub non_interactive : Bool

abbrev pub n_or_h : ℕ → Bool
n_or_h c = c == b'n' || c == b'H'

-- `-u`, alone or with the user attached
abbrev pub is_user_flag : String → Bool
is_user_flag token = starts_with token "-u"

abbrev pub set_user : Sudo → String → Result Sudo
set_user s name = do u ← user_of name; ok (record s { user = some u })

abbrev pub set_following : Sudo → Option String → Result (Sudo × Bool)
set_following s none = err needs_value
set_following s (some name) = tagged true (set_user s name)

-- `-n`, `-H` or both in one token
abbrev pub set_flags : Sudo → String → Sudo
set_flags s flags = record s {
  non_interactive = s.non_interactive || has_char b'n' flags;
  home = s.home || has_char b'H' flags;
}

-- One round of the loop, and whether it took the next token too.
unfoldable pub sudo_step : Sudo → String → Option String → Result (Sudo × Bool)
sudo_step s token following =
    if not (starts_with token "-") || token == "-"
    then err bare_word
    else if is_user_flag token
    then (if is_some s.user
        then err user_twice
        else if token == "-u"
        then set_following s following
        else tagged false (set_user s (skip 2 token)))
    else if all_chars n_or_h (skip 1 token)
    then ok (set_flags s (skip 1 token), false)
    else err bad_flag

unfoldable pub sudo_loop : Sudo → List String → Result Sudo
sudo_loop s [] = ok s
sudo_loop s (token ∷ []) = do p ← sudo_step s token none; ok p.0
sudo_loop s (token ∷ following ∷ rest) = elim (sudo_step s token (some following)) [
  | err e ↦ err e
  | ok (t, taken) ↦ elim taken [ true ↦ sudo_loop t rest | false ↦ sudo_loop t (following ∷ rest) ]
]

-- `sudo` needs `-n`.
abbrev pub sudo_end : Sudo → Result Become
sudo_end s = if s.non_interactive then ok (record { user = s.user; home = s.home }) else err needs_n

-- `_parse_become`
unfoldable pub parse_become : List String → Result Become
parse_become [] = err not_sudo
parse_become (head ∷ rest) =
    if contains other_becomes head
    then err other_become
    else if not (head == "sudo")
    then err not_sudo
    else (do
      s ← sudo_loop (record { user = none; home = false; non_interactive = false }) rest
      sudo_end s)

-- `_parse_destination`, by what stands between the signs
abbrev pub host_of : Option String → String → Result (Option String × String)
host_of at host = if is_ssh_name host then ok (at, host) else err bad_host

abbrev pub destination_of : List String → Result (Option String × String)
destination_of [] = err bad_host
destination_of (host ∷ []) = host_of none host
destination_of (user ∷ host ∷ []) = do u ← user_of user; host_of (some u) host
destination_of (_ ∷ _ ∷ _ ∷ _) = err two_ats

unfoldable pub parse_destination : String → Result (Option String × String)
parse_destination token = destination_of (split_on b'@' token)

-- What the loop of `_parse_access` has read.
pub record Line : Type 0 where
  pub collected : Collected
  pub destination : Option String
  pub become : Option Become

abbrev pub is_option : String → Bool
is_option token = starts_with token "-" && not (token == "-")

abbrev pub finish_become : Line → List String → Result Line
finish_become l tokens = do b ← parse_become tokens; ok (record l { become = some b })

module _ (py : Python) where
  unfoldable pub access_loop : Line → List String → Result Line
  access_loop l [] = ok l
  access_loop l (token ∷ []) =
      if token == "--"
      then err dash_dash
      else if is_option token
      then (do p ← parse_option py token none l.collected; ok (record l { collected = p.0 }))
      else if not (is_some l.destination)
      then ok (record l { destination = some token })
      else finish_become l (token ∷ [])
  access_loop l (token ∷ following ∷ rest) =
      let placed = access_loop (record l { destination = some token }) (following ∷ rest) in
      let optioned : Result Line = elim (parse_option py token (some following) l.collected) [
        | err e ↦ err e
        | ok (c, taken) ↦ elim taken [
          | true ↦ access_loop (record l { collected = c }) rest
          | false ↦ access_loop (record l { collected = c }) (following ∷ rest)
        ]
      ] in
      if token == "--"
      then err dash_dash
      else if is_option token
      then optioned
      else if not (is_some l.destination)
      then placed
      else finish_become l (token ∷ following ∷ rest)

-- `_single`
unfoldable pub single {ℓ} : {A : Type ℓ} ⦃e : Eq A⦄ → List A → Result (Option A)
single [] = ok none
single (a ∷ rest) = if all (λ b. b == a) rest then ok (some a) else err two_values

-- `dict.fromkeys`: each value once, where it stood first
unfoldable pub distinct {ℓ} : {A : Type ℓ} ⦃e : Eq A⦄ → List A → List A
distinct [] = []
distinct (a ∷ rest) = a ∷ keep (λ b. not (b == a)) (distinct rest)

abbrev pub keyed : List String → List String
keyed [] = []
keyed (k ∷ ks) = "-i" ∷ k ∷ keyed ks

abbrev pub opted {ℓ} : {A : Type ℓ} → String → (A → String) → Option A → List String
opted flag shown none = []
opted flag shown (some a) = flag ∷ shown a ∷ []

-- The options as they are passed on.
unfoldable pub options_of :
    Python → List String → Option ℕ → Option String → Option ℕ → Option String → List String
options_of py keys port jump timeout identities =
    keyed keys
    ++ (opted "-p" py.decimal port
        ++ (opted "-J" (λ j. j) jump
            ++ (opted "-o" (λ n. concat ("ConnectTimeout=" ∷ py.decimal n ∷ [])) timeout
                ++ opted "-o" (λ b. concat ("IdentitiesOnly=" ∷ b ∷ [])) identities)))

abbrev pub listed : Option String → List String
listed none = []
listed (some u) = u ∷ []

-- The end of `_parse_access`, once the line is read and the destination parsed. An empty jump host
-- does not pass `_jump`.
abbrev pub access_of : Python → Line → Option String × String → Result Access
access_of py l (at, host) = do
  user ← single (l.collected.users ++ listed at)
  port ← single l.collected.ports
  let keys = distinct l.collected.keys
  ok (record {
    options =
        options_of py keys port l.collected.jump l.collected.timeout l.collected.identities_only;
    user = user;
    host = host;
    port = port;
    keys = keys;
    jump = l.collected.jump;
    become = l.become;
  })

unfoldable pub assemble : Python → Line → Result Access
assemble py l = elim l.destination [
  | none ↦ err no_destination
  | some token ↦ do d ← parse_destination token; access_of py l d
]

abbrev pub empty_line : Line
empty_line = record { collected = nothing_yet; destination = none; become = none }

-- `_parse_access` on the tokens
unfoldable pub access_of_tokens : Python → List String → Result Access
access_of_tokens py [] = err not_ssh
access_of_tokens py (head ∷ rest) =
    if not (head == "ssh")
    then err not_ssh
    else (do l ← access_loop py empty_line rest; assemble py l)

-- `parse_access`
unfoldable pub parse_access : Python → String → Result Access
parse_access py text = do tokens ← split_text py text; access_of_tokens py tokens
