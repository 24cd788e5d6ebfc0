-- ===== src/Transport/Lines.antt =====
-- `build_command` and `signal_command` of odoo_sheller/transport.py: the command lines that are run
-- on this machine, as lists of arguments that no shell reads.
use odoo_sheller.Common.{
  ℕ, String, ◌⊎◌, inl, inr, Option, none, some, List, [], ◌∷◌, ◌++◌, if◌then◌else◌, string_eq,
  nat_eq, contains, concat,
}
use odoo_sheller.Recipe.{heredoc_marker, ssh_argv, launch_script}
use odoo_sheller.Recipe.Words.{is_ssh_name}
use odoo_sheller.Transport.{TargetKind, docker, odoosh, ssh, Target}

-- The CLI of docker, `SSH_OPTS`, `shlex.quote`, `str` of a number, and `str.strip` on the lines
-- that `str.splitlines` makes.
pub record Machine : Type 0 where
  pub docker_bin : String
  pub ssh_opts : List String
  pub quote : String → String
  pub decimal : ℕ → String
  pub stripped_lines : String → List String

-- What keeps a command line from being made. `missing_field` is a target that lacks what its kind
-- needs, on which Python raises a `TypeError` or an `AttributeError`.
pub data LineError : Type 0 where
  bad_name has_marker missing_field : LineError

abbrev pub name_or : Option String → LineError ⊎ String
name_or none = inl bad_name
name_or (some s) = if is_ssh_name s then inr s else inl bad_name

-- `ssh_destination`
unfoldable pub ssh_destination : Option String → Option String → LineError ⊎ String
ssh_destination build host = elim (name_or build) [
  | inl e ↦ inl e
  | inr b ↦ elim (name_or host) [ inl e ↦ inl e | inr h ↦ inr (concat (b ∷ "@" ∷ h ∷ [])) ]
]

-- `_script`
abbrev pub script_for : Machine → Target → String → TargetKind → LineError ⊎ String
script_for m t source ssh = elim t.launch [
  | none ↦ inl missing_field
  | some l ↦ inr (launch_script m.quote l (concat (source ∷ "\n" ∷ heredoc_marker ∷ "\n" ∷ [])))
]
script_for m t source odoosh = inr (
    concat (
      "exec 3<&0; exec odoo-bin shell <<\"" ∷ heredoc_marker ∷ "\"\n" ∷ source ∷ "\n"
      ∷ heredoc_marker ∷ "\n" ∷ []))
script_for m t source docker = elim t.odoo_bin [
  | none ↦ inl missing_field
  | some bin ↦ elim t.database [
    | none ↦ inl missing_field
    | some db ↦ inr (
        concat (
          "exec 3<&0; exec "
          ∷ m.quote bin
          ∷ " shell -d "
          ∷ m.quote db
          ∷ " --no-http <<\""
          ∷ heredoc_marker
          ∷ "\"\n"
          ∷ source
          ∷ "\n"
          ∷ heredoc_marker
          ∷ "\n"
          ∷ []))
  ]
]

unfoldable pub script_of_target : Machine → Target → String → LineError ⊎ String
script_of_target m t source =
    if contains (m.stripped_lines source) heredoc_marker
    then inl has_marker
    else script_for m t source t.kind

-- `ssh` to an odoo.sh build, with what the login shell there reads
abbrev pub ssh_line : Machine → Target → List String → LineError ⊎ List String
ssh_line m t rest = elim (ssh_destination t.build t.host) [
  | inl e ↦ inl e
  | inr d ↦ inr (("ssh" ∷ []) ++ m.ssh_opts ++ ("--" ∷ d ∷ rest))
]

abbrev pub build_for : Machine → Target → String → TargetKind → LineError ⊎ List String
build_for m t script ssh = elim t.access [
  | none ↦ inl missing_field
  | some a ↦ inr (ssh_argv m.quote a ("sh" ∷ "-c" ∷ script ∷ []) m.ssh_opts)
]
build_for m t script odoosh = ssh_line m t (concat ("sh -c " ∷ m.quote script ∷ []) ∷ [])
build_for m t script docker = elim t.container [
  | none ↦ inl missing_field
  | some c ↦ inr (m.docker_bin ∷ "exec" ∷ "-i" ∷ c ∷ "sh" ∷ "-c" ∷ script ∷ [])
]

-- `build_command`
unfoldable pub build_command : Machine → Target → String → LineError ⊎ List String
build_command m t source = elim (script_of_target m t source) [
  | inl e ↦ inl e
  | inr script ↦ build_for m t script t.kind
]

abbrev pub signal_for : Machine → Target → List String → TargetKind → LineError ⊎ List String
signal_for m t kill ssh = elim t.access [
  | none ↦ inl missing_field
  | some a ↦ inr (ssh_argv m.quote a kill m.ssh_opts)
]
signal_for m t kill odoosh = ssh_line m t kill
signal_for m t kill docker = elim t.container [
  | none ↦ inl missing_field
  | some c ↦ inr (m.docker_bin ∷ "exec" ∷ c ∷ kill)
]

-- `signal_command`
unfoldable pub signal_command : Machine → Target → ℕ → String → LineError ⊎ List String
signal_command m t pid name =
    signal_for m t ("kill" ∷ concat ("-" ∷ name ∷ []) ∷ m.decimal pid ∷ []) t.kind
