-- ===== src/Recipe/Safety.antt =====
-- What a recipe that odoo_sheller/recipe.py accepts can hold.
pub mod Collecting
pub mod Lines
pub mod Accepted
use odoo_sheller.Common.{
  ℕ, ◌≤◌, String, ◌≡◌, ◌⊎◌, true, false, Option, none, some, List, [], ◌∷◌, arith, All, concat,
  has_char, split_on, text_length,
}
use odoo_sheller.Recipe.Words.{ok, Python, is_user, port_of, user_of, key_of, hops_problem, jump_of}
use odoo_sheller.Recipe.Options.{Collected}

module _ (py : Python) where
  abbrev pub KeyPath : String → Type 0
  KeyPath k = (py.isabs k ≡ true) × (has_char b'%' k ≡ false) × (py.is_file k ≡ true)

  abbrev pub UserName : String → Type 0
  UserName u = (is_user u ≡ true) × (text_length u ≤ 32)

  -- The only argument lists that an Access line adds to ssh, whatever was written on it.
  pub data Harmless : List String → Type 0 where
    no_more : Harmless []
    a_key :
        {k : String} {rest : List String} → KeyPath k → Harmless rest → Harmless ("-i" ∷ k ∷ rest)
    a_port :
        {n : ℕ} {rest : List String}
        → 1 ≤ n
        → n ≤ 65535
        → Harmless rest
        → Harmless ("-p" ∷ py.decimal n ∷ rest)
    a_jump :
        {j : String} {rest : List String}
        → hops_problem (split_on b',' j) ≡ none
        → Harmless rest
        → Harmless ("-J" ∷ j ∷ rest)
    a_timeout :
        {n : ℕ} {rest : List String}
        → 1 ≤ n
        → n ≤ 300
        → Harmless rest
        → Harmless ("-o" ∷ concat ("ConnectTimeout=" ∷ py.decimal n ∷ []) ∷ rest)
    only_identities :
        {b : String} {rest : List String}
        → (b ≡ "yes") ⊎ (b ≡ "no")
        → Harmless rest
        → Harmless ("-o" ∷ concat ("IdentitiesOnly=" ∷ b ∷ []) ∷ rest)

  abbrev pub OptAll : {A : Type 0} → (A → Type 0) → Option A → Type 0
  OptAll P none = Unit
  OptAll P (some a) = P a

  abbrev pub InPorts : ℕ → Type 0
  InPorts n = (1 ≤ n) × (n ≤ 65535)

  -- What has been collected is fit to be passed on.
  pub record IsFit (c : Collected) : Type 0 where
    pub users : All UserName c.users
    pub ports : All InPorts c.ports
    pub keys : All KeyPath c.keys
    pub jump : OptAll (λ j. hops_problem (split_on b',' j) ≡ none) c.jump
    pub timeout : OptAll (λ n. (1 ≤ n) × (n ≤ 300)) c.timeout
    pub identities : OptAll (λ b. (b ≡ "yes") ⊎ (b ≡ "no")) c.identities_only

  pub user_of-ok : (v u : String) → user_of v ≡ ok u → UserName u
  unfolding user_of
  user_of-ok v u h = ground arith

  pub port_of-ok : (v : String) (n : ℕ) → port_of v ≡ ok n → InPorts n
  unfolding port_of
  port_of-ok v n h = ground arith

  pub key_of-ok : (v k : String) → key_of py v ≡ ok k → KeyPath k
  unfolding key_of
  key_of-ok v k h = ground arith

  pub jump_of-ok : (v j : String) → jump_of v ≡ ok j → hops_problem (split_on b',' j) ≡ none
  unfolding jump_of
  jump_of-ok v j h = ground arith
