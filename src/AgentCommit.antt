-- ===== src/AgentCommit.antt =====
-- odoo_sheller/agent_commit.py: the local containers that a human has opened to every agent's commit.
-- The file is missing, refused by `_read`, or a list of entries.
pub mod Switching
use odoo_sheller.Common.{
  code, String, ◌⊎◌, inl, inr, Bool, true, false, not, ◌&&◌, Option, none, some, List, [], ◌∷◌,
  ◌++◌, leb, if◌then◌else◌, ◌==◌, string_eq, nat_eq, length, any, keep, all_chars, is_alnum,
  text_length,
}
use odoo_sheller.Recipe.Words.{name_char}

pub record Switch : Type 0 where
  pub container : String
  pub since : String

pub data SwitchFile : Type 0 where
  missing refused : SwitchFile
  holds : List Switch → SwitchFile

pub data SwitchError : Type 0 where
  unusable bad_container unwritable : SwitchError

-- `_NAME.fullmatch`, as `check_container_name` asks it
unfoldable pub is_container_name : String → Bool
is_container_name String.[] = false
is_container_name (String.◌∷◌ c s) =
    is_alnum (code c) && all_chars name_char s && leb (text_length s) 127

-- `_read`
abbrev pub read_switches : SwitchFile → SwitchError ⊎ List Switch
read_switches missing = inr []
read_switches refused = inl unusable
read_switches (holds es) = inr es

abbrev pub find_switch : String → List Switch → Option Switch
find_switch c [] = none
find_switch c (e ∷ es) = if e.container == c then some e else find_switch c es

-- `is_on`; no container is asked about without a look at the file
unfoldable pub is_on : Option String → SwitchFile → SwitchError ⊎ Bool
is_on none f = inr false
is_on (some c) f =
    if c == ""
    then inr false
    else elim (read_switches f) [ inl p ↦ inl p | inr es ↦ inr (any (λ e. e.container == c) es) ]

-- `write_json_atomically`, which raises where the file cannot be written, and then leaves it as it was.
abbrev pub write_json : {A : Type 0} → (can_write : Bool) → A → SwitchError ⊎ A
write_json true a = inr a
write_json false a = inl unwritable

-- `turn_on`; `now` is the time of the call, and the file is written for a new entry alone
unfoldable pub turn_on : Bool → String → String → SwitchFile → SwitchError ⊎ (Switch × SwitchFile)
turn_on can_write c now f =
    if not (is_container_name c) then inl bad_container else elim (read_switches f) [
      | inl p ↦ inl p
      | inr es ↦ elim (find_switch c es) [
        | some e ↦ inr (record { container = c; since = e.since }, f)
        | none ↦
            let e : Switch = record { container = c; since = now } in
            write_json can_write (e, holds (es ++ e ∷ []))
      ]
    ]

-- `turn_off`; whether the container was on
unfoldable pub turn_off : Bool → String → SwitchFile → SwitchError ⊎ (Bool × SwitchFile)
turn_off can_write c f = elim (read_switches f) [
  | inl p ↦ inl p
  | inr es ↦
      let kept = keep (λ e. not (e.container == c)) es in
      if length kept == length es then inr (false, f) else write_json can_write (true, holds kept)
]
