-- ===== src/Recipe/Safety/Lines.antt =====
-- What an Access line that odoo_sheller/recipe.py accepts passes on to ssh.
use odoo_sheller.Common.{
  String, ◌≡◌, subst, inl, inr, Bool, true, false, not, ◌||◌, Option, none, some, List, [], ◌∷◌,
  arith, ◌==◌, string_eq, nat_eq, Bool-cases, is_some, contains, starts_with, skip,
}
use odoo_sheller.Recipe.{Become}
use odoo_sheller.Recipe.Words.{
  ok, Python, user_of, >>=-eq-ok, ok-injective, Result-cases, tagged-ok,
}
use odoo_sheller.Recipe.Options.{parse_option}
use odoo_sheller.Recipe.Parse.{
  other_becomes, Sudo, is_user_flag, set_user, set_following, set_flags, sudo_step, sudo_loop,
  sudo_end, parse_become, Line, is_option, finish_become, access_loop,
}
use odoo_sheller.Recipe.Safety.{UserName, OptAll, IsFit, user_of-ok}
use odoo_sheller.Recipe.Safety.Collecting.{parse_option-IsFit}

module _ (py : Python) where
  abbrev pub SudoUser : Option Become → Type 0
  SudoUser none = Unit
  SudoUser (some b) = OptAll py (UserName py) b.user

  pub record LineFit (l : Line) : Type 0 where
    pub collected : IsFit py l.collected
    pub become : SudoUser l.become

  abbrev NamesUser : Sudo → Type 0
  NamesUser s = OptAll py (UserName py) s.user

  set_user-user : (s t : Sudo) (name : String) → set_user s name ≡ ok t → NamesUser t
  set_user-user s t name h =
      let (u, e, g) = >>=-eq-ok (user_of name) (λ u. ok (record s { user = some u })) h in
      subst NamesUser (ok-injective g) (user_of-ok py name u e)

  set_following-user :
      (s t : Sudo) (o : Option String) (taken : Bool)
      → set_following s o ≡ ok (t, taken)
      → NamesUser t
  set_following-user s t none taken h = cc
  set_following-user s t (some name) taken h =
      set_user-user s t name (tagged-ok (set_user s name) t true taken h)

  sudo_step-user :
      (s t : Sudo) (token : String) (following : Option String) (taken : Bool)
      → NamesUser s
      → sudo_step s token following ≡ ok (t, taken)
      → NamesUser t
  unfolding sudo_step
  sudo_step-user s t token following taken f h =
      elim (Bool-cases (not (starts_with token "-") || token == "-")) [
        | inl e ↦ absurd (ground arith)
        | inr e ↦ elim (Bool-cases (is_user_flag token)) [
          | inl a ↦ elim (Bool-cases (is_some s.user)) [
            | inl b ↦ absurd (ground arith)
            | inr b ↦ elim (Bool-cases (token == "-u")) [
              | inl g ↦ set_following-user s t following taken (ground arith)
              | inr g ↦
                  set_user-user s t (skip 2 token)
                    (tagged-ok (set_user s (skip 2 token)) t false taken (ground arith))
            ]
          ]
          | inr a ↦
              let same : set_flags s (skip 1 token) ≡ t = ground arith in subst NamesUser same f
        ]
      ]

  sudo_loop-user :
      (s t : Sudo) (tokens : List String) → NamesUser s → sudo_loop s tokens ≡ ok t → NamesUser t
  unfolding sudo_loop
  sudo_loop-user s t [] f h = subst NamesUser (ok-injective h) f
  sudo_loop-user s t (token ∷ []) f h =
      let (p, e, g) = >>=-eq-ok (sudo_step s token none) (λ p. ok p.0) h in
      subst NamesUser (ok-injective g) (sudo_step-user s p.0 token none p.1 f e)
  sudo_loop-user s t (token ∷ following ∷ rest) f h =
      elim (Result-cases (sudo_step s token (some following))) [
        | inr (x, e) ↦ absurd (ground arith)
        | inl ((u, taken), e) ↦
            let k = sudo_step-user s u token (some following) taken f e in
            elim (Bool-cases taken) [
              | inl b ↦ sudo_loop-user u t rest k (ground arith)
              | inr b ↦ sudo_loop-user u t (following ∷ rest) k (ground arith)
            ]
      ]

  parse_become-user :
      (tokens : List String) (b : Become) → parse_become tokens ≡ ok b → SudoUser (some b)
  unfolding parse_become
  parse_become-user [] b h = cc
  parse_become-user (head ∷ rest) b h = elim (Bool-cases (contains other_becomes head)) [
    | inl e ↦ absurd (ground arith)
    | inr e ↦ elim (Bool-cases (not (head == "sudo"))) [
      | inl a ↦ absurd (ground arith)
      | inr a ↦
          let start : Sudo = record { user = none; home = false; non_interactive = false } in
          let (s, q, g) = >>=-eq-ok (sudo_loop start rest) sudo_end {b = b} (ground arith) in
          let k = sudo_loop-user start s rest tt q in
          elim (Bool-cases s.non_interactive) [
            | inl n ↦
                let same : record { user = s.user; home = s.home } ≡ b = ground arith in
                subst (λ (x : Become). SudoUser (some x)) same k
            | inr n ↦ absurd (ground arith)
          ]
    ]
  ]

  finish_become-fit :
      (l m : Line) (tokens : List String) → LineFit l → finish_become l tokens ≡ ok m → LineFit m
  finish_become-fit l m tokens f h =
      let (b, e, g) = >>=-eq-ok (parse_become tokens) (λ b. ok (record l { become = some b })) h in
      subst LineFit (ok-injective g)
        (record { collected = f.collected; become = parse_become-user tokens b e })

  pub access_loop-fit :
      (l m : Line) (tokens : List String) → LineFit l → access_loop py l tokens ≡ ok m → LineFit m
  unfolding access_loop
  access_loop-fit l m [] f h = subst LineFit (ok-injective h) f
  access_loop-fit l m (token ∷ []) f h = elim (Bool-cases (token == "--")) [
    | inl e ↦ absurd (ground arith)
    | inr e ↦ elim (Bool-cases (is_option token)) [
      | inl a ↦
          let (p, q, g) =
            >>=-eq-ok (parse_option py token none l.collected)
              (λ p. ok (record l { collected = p.0 })) (ground arith) in
          subst LineFit (ok-injective g) (record {
            collected = parse_option-IsFit py token none l.collected p.0 p.1 f.collected q;
            become = f.become;
          })
      | inr a ↦ elim (Bool-cases (not (is_some l.destination))) [
        | inl b ↦
            let same : record l { destination = some token } ≡ m = ground arith in
            subst LineFit same (record { collected = f.collected; become = f.become })
        | inr b ↦ finish_become-fit l m (token ∷ []) f (ground arith)
      ]
    ]
  ]
  access_loop-fit l m (token ∷ following ∷ rest) f h = elim (Bool-cases (token == "--")) [
    | inl e ↦ absurd (ground arith)
    | inr e ↦ elim (Bool-cases (is_option token)) [
      | inl a ↦ elim (Result-cases (parse_option py token (some following) l.collected)) [
        | inr (x, p) ↦ absurd (ground arith)
        | inl ((c, taken), p) ↦
            let g : LineFit (record l { collected = c }) = record {
              collected =
                  parse_option-IsFit py token (some following) l.collected c taken f.collected p;
              become = f.become;
            } in
            elim (Bool-cases taken) [
              | inl b ↦ access_loop-fit (record l { collected = c }) m rest g (ground arith)
              | inr b ↦
                  access_loop-fit (record l { collected = c }) m (following ∷ rest) g (ground arith)
            ]
      ]
      | inr a ↦ elim (Bool-cases (not (is_some l.destination))) [
        | inl b ↦
            access_loop-fit (record l { destination = some token }) m (following ∷ rest)
              (record { collected = f.collected; become = f.become }) (ground arith)
        | inr b ↦ finish_become-fit l m (token ∷ following ∷ rest) f (ground arith)
      ]
    ]
  ]
