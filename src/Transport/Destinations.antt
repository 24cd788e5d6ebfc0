-- ===== src/Transport/Destinations.antt =====
-- What the command lines of odoo_sheller/transport.py pass to ssh.
use odoo_sheller.Common.{
  ℕ, String, ◌≡◌, refl, sym, ap, ◌∙◌, subst, inl, inr, true, false, not, Option, none, some, List,
  [], ◌∷◌, ◌++◌, arith, cons-append, Bool-cases, Option-cases, sum-cases, append-nil, starts_with,
  concat,
}
use odoo_sheller.Recipe.{Access, prefix_argv, destination, quote_all, ssh_argv}
use odoo_sheller.Recipe.Words.{ok, Python, is_ssh_name, is_user}
use odoo_sheller.Recipe.Parse.{parse_access}
use odoo_sheller.Recipe.Safety.{UserName, Harmless, no_more, OptAll}
use odoo_sheller.Recipe.Safety.Accepted.{parse_access-IsSafe}
use odoo_sheller.Transport.{TargetKind, docker, odoosh, ssh, Target, is_docker, is_remote}
use odoo_sheller.Transport.Lines.{Machine, ssh_destination, ssh_line, signal_for, signal_command}

named_not_dash :
    (s : String) (rest : List String)
    → is_ssh_name s ≡ true
    → starts_with (concat (s ∷ rest)) "-" ≡ false
unfolding is_ssh_name
named_not_dash String.[] rest h = cc
named_not_dash (String.◌∷◌ c s) rest h = rw (cons-append c s (concat rest)) (ground (arith, h))

user_not_dash :
    (s : String) (rest : List String)
    → is_user s ≡ true
    → starts_with (concat (s ∷ rest)) "-" ≡ false
unfolding is_user
user_not_dash String.[] rest h = cc
user_not_dash (String.◌∷◌ c s) rest h = rw (cons-append c s (concat rest)) (ground (arith, h))

host_not_dash : (s : String) → is_ssh_name s ≡ true → starts_with s "-" ≡ false
unfolding is_ssh_name
host_not_dash String.[] h = cc
host_not_dash (String.◌∷◌ c s) h = ground (arith, h)

-- What ssh takes for the destination of an accepted Access line is no option, on a connection that
-- starts a session and on one that delivers a signal alike.
pub destination-parse_access :
    (py : Python) (text : String) (a : Access)
    → parse_access py text ≡ ok a
    → starts_with (destination a) "-" ≡ false
unfolding destination
destination-parse_access py text a h =
    let safe = parse_access-IsSafe py text a h in
    elim (Option-cases a.user) [
      | inl e ↦ rw e (host_not_dash a.host safe.host)
      | inr (u, e) ↦
          let named : UserName py u = subst (OptAll py (UserName py)) e safe.user in
          rw e (user_not_dash u ("@" ∷ a.host ∷ []) named.0)
    ]

-- A call of ssh: the options of the program, options that are harmless, and a destination that is
-- none, before anything that is passed on to the other machine.
abbrev pub IsSshLine : Python → Machine → List String → Type 0
IsSshLine py m argv =
    (options : List String) × (target : String) × (rest : List String) × (argv
      ≡ ("ssh" ∷ []) ++ m.ssh_opts ++ options ++ ("--" ∷ target ∷ rest))
    × Harmless py options
    × (starts_with target "-" ≡ false)

ssh_argv-IsSshLine :
    (py : Python) (m : Machine) (text : String) (a : Access) (remote : List String)
    → parse_access py text ≡ ok a
    → IsSshLine py m (ssh_argv m.quote a remote m.ssh_opts)
unfolding ssh_argv
ssh_argv-IsSshLine py m text a remote h = (
  a.options,
  destination a,
  quote_all m.quote (prefix_argv a.become ++ remote) ∷ [],
  refl,
  (parse_access-IsSafe py text a h).options,
  destination-parse_access py text a h,
)

ssh_destination-named :
    (b h : Option String) (d : String) → ssh_destination b h ≡ inr d → starts_with d "-" ≡ false
unfolding ssh_destination
ssh_destination-named none h d e = cc
ssh_destination-named (some b) none d e = absurd (ground arith)
ssh_destination-named (some b) (some h) d e = elim (Bool-cases (is_ssh_name b)) [
  | inr x ↦ absurd (ground arith)
  | inl x ↦
      let same : concat (b ∷ "@" ∷ h ∷ []) ≡ d = ground arith in
      subst (λ y. starts_with y "-" ≡ false) same (named_not_dash b ("@" ∷ h ∷ []) x)
]

ssh_line-IsSshLine :
    (py : Python) (m : Machine) (t : Target) (rest argv : List String)
    → ssh_line m t rest ≡ inr argv
    → IsSshLine py m argv
ssh_line-IsSshLine py m t rest argv e = elim (sum-cases (ssh_destination t.build t.host)) [
  | inl (x, k) ↦ absurd (ground arith)
  | inr (d, k) ↦
      let same : ("ssh" ∷ []) ++ m.ssh_opts ++ ("--" ∷ d ∷ rest) ≡ argv = ground arith in
      let none_added : ("ssh" ∷ []) ++ m.ssh_opts ++ [] ++ ("--" ∷ d ∷ rest) ≡ argv =
        ap (λ opts. opts ++ ("--" ∷ d ∷ rest)) (append-nil (("ssh" ∷ []) ++ m.ssh_opts)) ∙ same in
      ([], d, rest, sym none_added, no_more, ssh_destination-named t.build t.host d k)
]

-- The command line that signals a session on another machine, whose access, if it has one, comes
-- from an Access line that was accepted, is a call of ssh: besides the program's own options it
-- holds harmless ones alone, and its destination is no option.
pub signal_command-IsSshLine :
    (py : Python) (m : Machine) (t : Target) (pid : ℕ) (name text : String) (argv : List String)
    → ((a : Access) → t.access ≡ some a → parse_access py text ≡ ok a)
    → is_remote t ≡ true
    → signal_command m t pid name ≡ inr argv
    → IsSshLine py m argv
unfolding signal_command is_remote
signal_command-IsSshLine py m t pid name text argv card r h =
    let kill = "kill" ∷ concat ("-" ∷ name ∷ []) ∷ m.decimal pid ∷ [] in
    by_kind t.kind refl kill r h
  where
    by_kind :
        (k : TargetKind)
        → t.kind ≡ k
        → (kill : List String) → not (is_docker k) ≡ true
        → signal_for m t kill k ≡ inr argv
        → IsSshLine py m argv
    by_kind docker e kill r h = cc
    by_kind odoosh e kill r h = ssh_line-IsSshLine py m t kill argv h
    by_kind ssh e kill r h = elim (Option-cases t.access) [
      | inl k ↦ absurd (ground arith)
      | inr (a, k) ↦
          let same : ssh_argv m.quote a kill m.ssh_opts ≡ argv = ground arith in
          subst (IsSshLine py m) same (ssh_argv-IsSshLine py m text a kill (card a k))
    ]
