-- ===== src/Recipe/Safety/Accepted.antt =====
-- What an Access line that odoo_sheller/recipe.py accepts comes to.
use odoo_sheller.Common.{
  ℕ, ◌≤◌, String, ◌≡◌, subst, ◌⊎◌, inl, inr, Bool, true, not, Option, none, some, List, [], ◌∷◌,
  ◌++◌, arith, Eq, ◌==◌, string_eq, nat_eq, Bool-cases, Option-cases, all, keep, All, All-append,
  concat, split_on,
}
use odoo_sheller.Recipe.{Access}
use odoo_sheller.Recipe.Words.{
  ok, ◌>>=◌, Python, is_ssh_name, user_of, hops_problem, split_text, >>=-eq-ok, ok-injective,
}
use odoo_sheller.Recipe.Options.{nothing_yet}
use odoo_sheller.Recipe.Parse.{
  host_of, destination_of, parse_destination, Line, access_loop, single, distinct, keyed, opted,
  options_of, listed, access_of, assemble, empty_line, access_of_tokens, parse_access,
}
use odoo_sheller.Recipe.Safety.{
  KeyPath, UserName, Harmless, no_more, a_key, a_port, a_jump, a_timeout, only_identities, OptAll,
  InPorts, IsFit, user_of-ok,
}
use odoo_sheller.Recipe.Safety.Lines.{SudoUser, LineFit, access_loop-fit}

module _ (py : Python) where
  Harmless-keyed :
      (ks : List String) (rest : List String)
      → All (KeyPath py) ks
      → Harmless py rest
      → Harmless py (keyed ks ++ rest)
  Harmless-keyed [] rest f h = h
  Harmless-keyed (k ∷ ks) rest (f, fs) h = a_key f (Harmless-keyed ks rest fs h)

  -- A list of options made of checked values is harmless.
  options_of-Harmless :
      (keys : List String) (port : Option ℕ) (jump : Option String) (timeout : Option ℕ)
      (identities : Option String)
      → All (KeyPath py) keys
      → OptAll py (InPorts py) port
      → OptAll py (λ j. hops_problem (split_on b',' j) ≡ none) jump
      → OptAll py (λ n. (1 ≤ n) × (n ≤ 300)) timeout
      → OptAll py (λ b. (b ≡ "yes") ⊎ (b ≡ "no")) identities
      → Harmless py (options_of py keys port jump timeout identities)
  unfolding options_of
  options_of-Harmless keys port jump timeout identities k p j t i =
      Harmless-keyed keys _ k
        (at_port port p (at_jump jump j (at_timeout timeout t (at_identities identities i))))
    where
      at_identities :
          (o : Option String)
          → OptAll py (λ b. (b ≡ "yes") ⊎ (b ≡ "no")) o
          → Harmless py (opted "-o" (λ b. concat ("IdentitiesOnly=" ∷ b ∷ [])) o)
      at_identities none h = no_more
      at_identities (some b) h = only_identities h no_more

      at_timeout :
          (o : Option ℕ) {rest : List String}
          → OptAll py (λ n. (1 ≤ n) × (n ≤ 300)) o
          → Harmless py rest
          → Harmless py (opted "-o" (λ n. concat ("ConnectTimeout=" ∷ py.decimal n ∷ [])) o ++ rest)
      at_timeout none h r = r
      at_timeout (some n) h r = a_timeout h.0 h.1 r

      at_jump :
          (o : Option String) {rest : List String}
          → OptAll py (λ j. hops_problem (split_on b',' j) ≡ none) o
          → Harmless py rest
          → Harmless py (opted "-J" (λ j. j) o ++ rest)
      at_jump none h r = r
      at_jump (some j) h r = a_jump h r

      at_port :
          (o : Option ℕ) {rest : List String}
          → OptAll py (InPorts py) o
          → Harmless py rest
          → Harmless py (opted "-p" py.decimal o ++ rest)
      at_port none h r = r
      at_port (some n) h r = a_port h.0 h.1 r

  All-keep :
      (q : String → Bool) (ks : List String) → All (KeyPath py) ks → All (KeyPath py) (keep q ks)
  All-keep q [] h = tt
  All-keep q (k ∷ ks) (h, hs) = elim (Bool-cases (q k)) [
    | inl e ↦ rw e (h, All-keep q ks hs)
    | inr e ↦ rw e (All-keep q ks hs)
  ]

  All-distinct : (ks : List String) → All (KeyPath py) ks → All (KeyPath py) (distinct ks)
  unfolding distinct
  All-distinct [] h = tt
  All-distinct (k ∷ ks) (h, hs) = (h, All-keep _ (distinct ks) (All-distinct ks hs))

  single-OptAll :
      {A : Type 0} ⦃e : Eq A⦄ (P : A → Type 0) (xs : List A) (o : Option A)
      → All P xs
      → single xs ≡ ok o
      → OptAll py P o
  unfolding single
  single-OptAll P [] o h k = subst (OptAll py P) (ok-injective k) tt
  single-OptAll P (x ∷ xs) o (h, hs) k = elim (Bool-cases (all (λ b. b == x) xs)) [
    | inl a ↦ subst (OptAll py P) (ok-injective (rw a at k)) h
    | inr a ↦ absurd (ground arith)
  ]

  host_of-ok :
      (at at' : Option String) (named host : String)
      → OptAll py (UserName py) at
      → host_of at named ≡ ok (at', host)
      → OptAll py (UserName py) at' × (is_ssh_name host ≡ true)
  host_of-ok at at' named host f h = elim (Bool-cases (is_ssh_name named)) [
    | inl e ↦
        let same : at ≡ at' = ground arith in
        let same_host : named ≡ host = ground arith in
        (subst (OptAll py (UserName py)) same f, rw (← same_host) e)
    | inr e ↦ absurd (ground arith)
  ]

  destination_of-ok :
      (parts : List String) (at : Option String) (host : String)
      → destination_of parts ≡ ok (at, host)
      → OptAll py (UserName py) at × (is_ssh_name host ≡ true)
  destination_of-ok [] at host h = cc
  destination_of-ok (named ∷ []) at host h = host_of-ok none at named host tt h
  destination_of-ok (user ∷ named ∷ []) at host h =
      let (u, e, g) = >>=-eq-ok (user_of user) (λ u. host_of (some u) named) h in
      host_of-ok (some u) at named host (user_of-ok py user u e) g
  destination_of-ok (a ∷ b ∷ c ∷ rest) at host h = cc

  -- What every accepted Access line holds.
  pub record IsSafe (a : Access) : Type 0 where
    pub options : Harmless py a.options
    pub host : is_ssh_name a.host ≡ true
    pub user : OptAll py (UserName py) a.user
    pub become : SudoUser py a.become

  listed-users : (at : Option String) → OptAll py (UserName py) at → All (UserName py) (listed at)
  listed-users none h = tt
  listed-users (some u) h = (h, tt)

  access_of-IsSafe :
      (l : Line) (at : Option String) (host : String) (a : Access)
      → LineFit py l
      → OptAll py (UserName py) at
      → is_ssh_name host ≡ true
      → access_of py l (at, host) ≡ ok a
      → IsSafe a
  access_of-IsSafe l at host a f u n h =
      let keys = distinct l.collected.keys in
      let build : Option String → Option ℕ → Access = λ user port. record {
        options =
            options_of py keys port l.collected.jump l.collected.timeout
              l.collected.identities_only;
        user = user;
        host = host;
        port = port;
        keys = keys;
        jump = l.collected.jump;
        become = l.become;
      } in
      let c = f.collected in
      let (user, e, g) =
        >>=-eq-ok (single (l.collected.users ++ listed at))
          (λ user. single l.collected.ports >>= λ port. ok (build user port)) h in
      let (port, e', g') = >>=-eq-ok (single l.collected.ports) (λ port. ok (build user port)) g in
      subst IsSafe (ok-injective g') (record {
        options =
            options_of-Harmless keys port l.collected.jump l.collected.timeout
              l.collected.identities_only (All-distinct l.collected.keys c.keys)
              (single-OptAll (InPorts py) l.collected.ports port c.ports e') c.jump c.timeout
              c.identities;
        host = n;
        user =
            single-OptAll (UserName py) (l.collected.users ++ listed at) user
              (All-append (UserName py) l.collected.users (listed at) c.users (listed-users at u))
              e;
        become = f.become;
      })

  assemble-IsSafe : (l : Line) (a : Access) → LineFit py l → assemble py l ≡ ok a → IsSafe a
  unfolding assemble parse_destination
  assemble-IsSafe l a f h = elim (Option-cases l.destination) [
    | inl e ↦ absurd (ground arith)
    | inr (token, e) ↦
        let ((at, host), p, g) =
          >>=-eq-ok (destination_of (split_on b'@' token)) (access_of py l) {b = a}
            (ground arith) in
        let (u, n) = destination_of-ok (split_on b'@' token) at host p in
        access_of-IsSafe l at host a f u n g
  ]

  nothing_yet-IsFit : IsFit py nothing_yet
  nothing_yet-IsFit = record {
    users = tt;
    ports = tt;
    keys = tt;
    jump = tt;
    timeout = tt;
    identities = tt;
  }

  of_tokens-IsSafe :
      (tokens : List String) (a : Access) → access_of_tokens py tokens ≡ ok a → IsSafe a
  unfolding access_of_tokens
  of_tokens-IsSafe [] a h = cc
  of_tokens-IsSafe (head ∷ rest) a h = elim (Bool-cases (not (head == "ssh"))) [
    | inl e ↦ absurd (ground arith)
    | inr e ↦
        let (l, q, g) =
          >>=-eq-ok (access_loop py empty_line rest) (assemble py) {b = a} (ground arith) in
        let start : LineFit py empty_line = record { collected = nothing_yet-IsFit; become = tt } in
        assemble-IsSafe l a (access_loop-fit py empty_line l rest start q) g
  ]

  -- An Access line that is accepted adds to ssh only key files that exist, a port, jump hosts, a
  -- timeout and IdentitiesOnly, each with a checked value; its host and its users are plain names.
  -- So nothing on it can be an option that runs a command on this machine.
  pub parse_access-IsSafe : (text : String) (a : Access) → parse_access py text ≡ ok a → IsSafe a
  unfolding parse_access
  parse_access-IsSafe text a h =
      let (tokens, e, g) = >>=-eq-ok (split_text py text) (access_of_tokens py) h in
      of_tokens-IsSafe tokens a g
