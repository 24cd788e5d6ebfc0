-- ===== src/Recipe/Safety/Collecting.antt =====
-- Every option that odoo_sheller/recipe.py collects from an Access line is fit to be passed on.
use odoo_sheller.Common.{
  ℕ, ◌≤◌, String, ◌≡◌, subst, ◌⊎◌, inl, inr, Bool, true, false, not, Option, none, some, [], ◌∷◌,
  ◌++◌, arith, eq_iff, ◌==◌, string_eq, nat_eq, Bool-cases, Option-cases, All-append, split_on,
  skip,
}
use odoo_sheller.Recipe.Words.{
  Result, ok, ◌>>=◌, Python, port_of, user_of, key_of, hops_problem, jump_of, >>=-eq-ok,
  ok-injective, tagged-ok,
}
use odoo_sheller.Recipe.Options.{
  Collected, OptionKey, port_key, user_key, identity_key, jump_key, timeout_key, identities_key,
  batch_key, allowed_option, timeout_of, yes_or_no, apply_key, apply_named, strip_left, name_run,
  value_of, parse_dash_o, apply_letter, takes_value, flag_of, apply_following, parse_option,
}
use odoo_sheller.Recipe.Safety.{
  KeyPath, UserName, InPorts, IsFit, user_of-ok, port_of-ok, key_of-ok, jump_of-ok,
}

module _ (py : Python) where
  with_user :
      (c : Collected) (u : String)
      → IsFit py c
      → UserName py u
      → IsFit py (record c { users = c.users ++ u ∷ [] })
  with_user c u f h = record {
    users = All-append (UserName py) c.users (u ∷ []) f.users (h, tt);
    ports = f.ports;
    keys = f.keys;
    jump = f.jump;
    timeout = f.timeout;
    identities = f.identities;
  }

  with_port :
      (c : Collected) (n : ℕ)
      → IsFit py c
      → InPorts py n
      → IsFit py (record c { ports = c.ports ++ n ∷ [] })
  with_port c n f h = record {
    users = f.users;
    ports = All-append (InPorts py) c.ports (n ∷ []) f.ports (h, tt);
    keys = f.keys;
    jump = f.jump;
    timeout = f.timeout;
    identities = f.identities;
  }

  with_key :
      (c : Collected) (k : String)
      → IsFit py c
      → KeyPath py k
      → IsFit py (record c { keys = c.keys ++ k ∷ [] })
  with_key c k f h = record {
    users = f.users;
    ports = f.ports;
    keys = All-append (KeyPath py) c.keys (k ∷ []) f.keys (h, tt);
    jump = f.jump;
    timeout = f.timeout;
    identities = f.identities;
  }

  with_jump :
      (c : Collected) (j : String)
      → IsFit py c
      → hops_problem (split_on b',' j) ≡ none
      → IsFit py (record c { jump = some j })
  with_jump c j f h = record {
    users = f.users;
    ports = f.ports;
    keys = f.keys;
    jump = h;
    timeout = f.timeout;
    identities = f.identities;
  }

  with_timeout :
      (c : Collected) (n : ℕ)
      → IsFit py c
      → (1 ≤ n) × (n ≤ 300)
      → IsFit py (record c { timeout = some n })
  with_timeout c n f h = record {
    users = f.users;
    ports = f.ports;
    keys = f.keys;
    jump = f.jump;
    timeout = h;
    identities = f.identities;
  }

  with_identities :
      (c : Collected) (b : String)
      → IsFit py c
      → (b ≡ "yes") ⊎ (b ≡ "no")
      → IsFit py (record c { identities_only = some b })
  with_identities c b f h = record {
    users = f.users;
    ports = f.ports;
    keys = f.keys;
    jump = f.jump;
    timeout = f.timeout;
    identities = h;
  }

  -- A value that is checked and then put into what was collected.
  module _ {A : Type 0} (P : A → Type 0) (put : Collected → A → Collected)
      (fits : (c : Collected) (a : A) → IsFit py c → P a → IsFit py (put c a)) where
    checked :
        (m : Result A) (c d : Collected)
        → ((a : A) → m ≡ ok a → P a)
        → IsFit py c
        → (m >>= λ a. ok (put c a)) ≡ ok d
        → IsFit py d
    checked m c d p f h =
        let (a, e, g) = >>=-eq-ok m (λ a. ok (put c a)) h in
        subst (IsFit py) (ok-injective g) (fits c a f (p a e))

  add_user :
      (v : String) (c d : Collected)
      → IsFit py c
      → (do u ← user_of v; ok (record c { users = c.users ++ u ∷ [] })) ≡ ok d
      → IsFit py d
  add_user v c d =
      checked (UserName py) (λ c u. record c { users = c.users ++ u ∷ [] }) with_user (user_of v) c
        d (user_of-ok py v)

  add_port :
      (v : String) (c d : Collected)
      → IsFit py c
      → (do n ← port_of v; ok (record c { ports = c.ports ++ n ∷ [] })) ≡ ok d
      → IsFit py d
  add_port v c d =
      checked (InPorts py) (λ c n. record c { ports = c.ports ++ n ∷ [] }) with_port (port_of v) c d
        (port_of-ok py v)

  add_key :
      (v : String) (c d : Collected)
      → IsFit py c
      → (do k ← key_of py v; ok (record c { keys = c.keys ++ k ∷ [] })) ≡ ok d
      → IsFit py d
  add_key v c d =
      checked (KeyPath py) (λ c k. record c { keys = c.keys ++ k ∷ [] }) with_key (key_of py v) c d
        (key_of-ok py v)

  add_jump :
      (v : String) (c d : Collected)
      → IsFit py c
      → (do j ← jump_of v; ok (record c { jump = some j })) ≡ ok d
      → IsFit py d
  add_jump v c d =
      checked (λ j. hops_problem (split_on b',' j) ≡ none) (λ c j. record c { jump = some j })
        with_jump (jump_of v) c d (jump_of-ok py v)

  timeout_of-ok : (v : String) (n : ℕ) → timeout_of v ≡ ok n → (1 ≤ n) × (n ≤ 300)
  timeout_of-ok v n h = ground arith

  yes_or_no-ok : (v b : String) → yes_or_no v ≡ ok b → (b ≡ "yes") ⊎ (b ≡ "no")
  yes_or_no-ok v b h = ground (arith, eq_iff v "yes", eq_iff v "no")

  apply_key-IsFit :
      (k : OptionKey) (v : String) (c d : Collected)
      → IsFit py c
      → apply_key py k v c ≡ ok d
      → IsFit py d
  unfolding apply_key
  apply_key-IsFit port_key v c d f h = add_port v c d f h
  apply_key-IsFit user_key v c d f h = add_user v c d f h
  apply_key-IsFit identity_key v c d f h = add_key v c d f h
  apply_key-IsFit jump_key v c d f h = add_jump v c d f h
  apply_key-IsFit timeout_key v c d f h =
      checked (λ n. (1 ≤ n) × (n ≤ 300)) (λ c n. record c { timeout = some n }) with_timeout
        (timeout_of v) c d (timeout_of-ok v) f h
  apply_key-IsFit identities_key v c d f h =
      checked (λ b. (b ≡ "yes") ⊎ (b ≡ "no")) (λ c b. record c { identities_only = some b })
        with_identities (yes_or_no (py.lower v)) c d (yes_or_no-ok (py.lower v)) f h
  apply_key-IsFit batch_key v c d f h = let same : c ≡ d = ground arith in subst (IsFit py) same f

  apply_named-IsFit :
      (name v : String) (c d : Collected) → IsFit py c → apply_named py name v c ≡ ok d → IsFit py d
  unfolding apply_named
  apply_named-IsFit name v c d f h = elim (Option-cases (allowed_option (py.lower name))) [
    | inl e ↦ absurd (ground arith)
    | inr (k, e) ↦ apply_key-IsFit k v c d f (ground arith)
  ]

  parse_dash_o-IsFit :
      (v : String) (c d : Collected) → IsFit py c → parse_dash_o py v c ≡ ok d → IsFit py d
  unfolding parse_dash_o
  parse_dash_o-IsFit v c d f h =
      let read = name_run py (strip_left py v) in
      elim (Option-cases (value_of py read.1)) [
        | inl e ↦ absurd (ground arith)
        | inr (value, e) ↦ apply_named-IsFit read.0 value c d f (ground arith)
      ]

  apply_letter-IsFit :
      (flag : ℕ) (v : String) (c d : Collected)
      → IsFit py c
      → apply_letter py flag v c ≡ ok d
      → IsFit py d
  apply_letter-IsFit flag v c d f h = elim (Bool-cases (flag == b'o')) [
    | inl e ↦ parse_dash_o-IsFit v c d f (rw e at h)
    | inr e ↦ elim (Bool-cases (flag == b'i')) [
      | inl e' ↦ add_key v c d f (rw (e, e') at h)
      | inr e' ↦ elim (Bool-cases (flag == b'p')) [
        | inl g ↦ add_port v c d f (rw (e, e', g) at h)
        | inr g ↦ elim (Bool-cases (flag == b'l')) [
          | inl g' ↦ add_user v c d f (rw (e, e', g, g') at h)
          | inr g' ↦ add_jump v c d f (rw (e, e', g, g') at h)
        ]
      ]
    ]
  ]

  apply_following-IsFit :
      (flag : ℕ) (o : Option String) (c d : Collected) (taken : Bool)
      → IsFit py c
      → apply_following py flag o c ≡ ok (d, taken)
      → IsFit py d
  apply_following-IsFit flag none c d taken f h = cc
  apply_following-IsFit flag (some v) c d taken f h =
      apply_letter-IsFit flag v c d f (tagged-ok (apply_letter py flag v c) d true taken h)

  pub parse_option-IsFit :
      (token : String) (following : Option String) (c d : Collected) (taken : Bool)
      → IsFit py c
      → parse_option py token following c ≡ ok (d, taken)
      → IsFit py d
  unfolding parse_option
  parse_option-IsFit token following c d taken f h = elim (Bool-cases (token == "-T")) [
    | inl e ↦ let same : c ≡ d = ground arith in subst (IsFit py) same f
    | inr e ↦ elim (Bool-cases (takes_value py (flag_of py token))) [
      | inr g ↦ absurd (ground arith)
      | inl g ↦ elim (Bool-cases (not (skip 2 token == ""))) [
        | inl a ↦ apply_letter-IsFit (flag_of py token) (skip 2 token) c d f (
            tagged-ok (apply_letter py (flag_of py token) (skip 2 token) c) d false taken
              (rw (e, g, a) at h))
        | inr a ↦ apply_following-IsFit (flag_of py token) following c d taken f (rw (e, g, a) at h)
      ]
    ]
  ]
