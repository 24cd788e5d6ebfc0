-- ===== src/Recipe.antt =====
-- odoo_sheller/recipe.py: what an ssh card holds once it is parsed, and the command lines made of it.
-- `shlex.quote` is Python's and enters as the parameter `quote`.
pub mod Words
pub mod Options
pub mod Parse
pub mod Launching
pub mod Safety
use odoo_sheller.Common.{
  ℕ, String, Bool, Option, none, some, List, [], ◌∷◌, ◌++◌, map, concat, join, if◌then◌else◌,
}

pub record Become : Type 0 where
  pub user : Option String
  pub home : Bool

pub record Access : Type 0 where
  pub options : List String
  pub user : Option String
  pub host : String
  pub port : Option ℕ
  pub keys : List String
  pub jump : Option String
  pub become : Option Become

pub record Launch : Type 0 where
  pub argv : List String
  pub database : Option String
  pub config : Option String
  pub odoo_bin : String
  pub http_off : Bool
  pub http_port : Option String

abbrev pub heredoc_marker : String
heredoc_marker = "OSBOOT"

-- `Become.argv`
unfoldable pub become_argv : Become → List String
become_argv b =
    ("sudo" ∷ "-n" ∷ [])
    ++ (elim b.user [ none ↦ [] | some u ↦ "-u" ∷ u ∷ [] ])
    ++ (if b.home then "-H" ∷ [] else [])

-- `*(self.become.argv if self.become else ())`
abbrev pub prefix_argv : Option Become → List String
prefix_argv none = []
prefix_argv (some b) = become_argv b

-- `Access.destination`
unfoldable pub destination : Access → String
destination a = elim a.user [ none ↦ a.host | some u ↦ concat (u ∷ "@" ∷ a.host ∷ []) ]

module _ (quote : String → String) where
  unfoldable pub quote_all : List String → String
  quote_all tokens = join " " (map quote tokens)

  -- `Access.ssh_argv`
  unfoldable pub ssh_argv : Access → List String → List String → List String
  unfolding destination
  ssh_argv a remote base =
      ("ssh" ∷ [])
      ++ base
      ++ a.options
      ++ ("--" ∷ destination a ∷ quote_all (prefix_argv a.become ++ remote) ∷ [])

  unfoldable pub launch_script : Launch → String → String
  launch_script launch rest =
      concat
        ("exec 3<&0; exec " ∷ quote_all launch.argv ∷ " <<\"" ∷ heredoc_marker ∷ "\"\n" ∷ rest ∷ [])
