-- ===== src/Guard/Addressed.antt =====
-- Every request that odoo_sheller/guard.py lets through was addressed to this daemon.
use odoo_sheller.Common.{
  ◌≤◌, String, ◌≡◌, refl, sym, subst, ◌⊎◌, inl, inr, true, none, some, List, [], ◌∷◌, arith, eq_iff,
  if◌then◌else◌, ◌==◌, string_eq, nat_eq, Bool-cases, Option-cases, is_some, length, All,
  starts_with, text_append, skip, starts_with-append,
}
use odoo_sheller.Guard.{
  Net, authority_name, no_brackets, origin_authority, values_of, is_loopback, host_is_loopback,
  origin_is_own, origin_refusal, judged, refusal,
}

All-values_of :
    (name : String) (P : String → Type 0) (headers : List (String × String))
    → All P (values_of name headers)
    → All (λ h. (h.0 == name) ≡ true → P h.1) headers
unfolding values_of
All-values_of name P [] h = tt
All-values_of name P ((n, v) ∷ headers) h = elim (Bool-cases (n == name)) [
  | inl e ↦
      let (here, rest) : P v × All P (values_of name headers) =
        subst (λ b. All P (if b then v ∷ values_of name headers else values_of name headers)) e h in
      (λ same. here, All-values_of name P headers rest)
  | inr e ↦
      let rest : All P (values_of name headers) =
        subst (λ b. All P (if b then v ∷ values_of name headers else values_of name headers)) e h in
      (λ same. absurd (ground (arith, e, same)), All-values_of name P headers rest)
]

module _ (net : Net) where
  -- An authority whose name is `localhost`, in whatever case, or a loopback address.
  abbrev pub IsLoopbackHost : String → Type 0
  IsLoopbackHost host =
      (name : String) × (authority_name host ≡ some name)
      × ((net.lower name ≡ "localhost")
          ⊎ (net.is_loopback_ip (no_brackets (net.lower name)) ≡ true))

  -- An http or https origin with the authority of this host, in whatever case.
  abbrev pub IsOwnOrigin : String → String → Type 0
  IsOwnOrigin host origin =
      (authority : String) × ((origin ≡ text_append "https://" authority)
        ⊎ (origin ≡ text_append "http://" authority))
      × (is_some (authority_name authority) ≡ true)
      × (net.lower authority ≡ net.lower host)

  host_is_loopback-IsLoopbackHost :
      (host : String) → host_is_loopback net host ≡ true → IsLoopbackHost host
  unfolding host_is_loopback is_loopback
  host_is_loopback-IsLoopbackHost host h = elim (Option-cases (authority_name host)) [
    | inl e ↦ absurd (ground (arith, h, e))
    | inr (name, e) ↦ elim (Bool-cases (net.lower name == "localhost")) [
      | inl local ↦ (name, e, inl ((eq_iff (net.lower name) "localhost").0 local))
      | inr other ↦ (name, e, inr (ground (arith, h, e, other)))
    ]
  ]

  own_authority :
      (host origin authority : String)
      → (origin ≡ text_append "https://" authority) ⊎ (origin ≡ text_append "http://" authority)
      → origin_authority origin
        ≡ (if is_some (authority_name authority) then some authority else none)
      → origin_is_own net host origin ≡ true
      → IsOwnOrigin host origin
  unfolding origin_is_own
  own_authority host origin authority shape read h =
      elim (Bool-cases (is_some (authority_name authority))) [
        | inr none_of ↦ absurd (ground (arith, h, read, none_of))
        | inl there ↦
            let same : net.lower authority == net.lower host ≡ true =
              ground (arith, h, read, there) in
            (authority, shape, there, (eq_iff (net.lower authority) (net.lower host)).0 same)
      ]

  origin_is_own-IsOwnOrigin :
      (host origin : String) → origin_is_own net host origin ≡ true → IsOwnOrigin host origin
  unfolding origin_authority
  origin_is_own-IsOwnOrigin host origin h = elim (Bool-cases (starts_with origin "https://")) [
    | inl s ↦
        own_authority host origin (skip 8 origin) (inl (starts_with-append origin "https://" s))
          (rw (s, origin_authority) refl) h
    | inr s ↦ elim (Bool-cases (starts_with origin "http://")) [
      | inl p ↦
          own_authority host origin (skip 7 origin) (inr (starts_with-append origin "http://" p))
            (rw (s, p, origin_authority) refl) h
      | inr p ↦ absurd (unfold origin_is_own origin_authority in ground (arith, h, s, p))
    ]
  ]

  -- The origins that may come with a host.
  unfoldable pub AreOwn : String → List String → Type 0
  AreOwn host origins = All (IsOwnOrigin host) origins × (length origins ≤ 1)

  origin_refusal-AreOwn :
      (host : String) (origins : List String)
      → origin_refusal net host origins ≡ none
      → AreOwn host origins
  unfolding origin_refusal AreOwn
  origin_refusal-AreOwn host [] h = (tt, omega arith)
  origin_refusal-AreOwn host (origin ∷ []) h =
      ((origin_is_own-IsOwnOrigin host origin (ground (arith, h)), tt), omega arith)
  origin_refusal-AreOwn host (origin ∷ second ∷ more) h = absurd (ground (arith, h))

  judged-none :
      (hosts origins : List String)
      → judged net hosts origins ≡ none
      → (host : String) × (hosts ≡ host ∷ []) × IsLoopbackHost host × AreOwn host origins
  unfolding judged
  judged-none [] origins h = absurd (ground (arith, h))
  judged-none (host ∷ []) origins h = elim (Bool-cases (host_is_loopback net host)) [
    | inl e ↦ (
      host,
      refl,
      host_is_loopback-IsLoopbackHost host e,
      origin_refusal-AreOwn host origins (ground (arith, h, e)),
    )
    | inr e ↦ absurd (ground (arith, h, e))
  ]
  judged-none (host ∷ second ∷ more) origins h = absurd (ground (arith, h))

  -- A request that is let through has exactly one Host header, and the name in it is `localhost`, in
  -- whatever case, or a loopback address. Wherever its headers stand, each one called `host` is that one, and each one called `origin`
  -- is an http or https origin with the same authority, in whatever case; there is at most one.
  pub refusal-none :
      (headers : List (String × String))
      → refusal net headers ≡ none
      → (host : String) × (values_of "host" headers ≡ host ∷ [])
        × IsLoopbackHost host
        × All (λ h. (h.0 == "host") ≡ true → h.1 ≡ host) headers
        × All (λ h. (h.0 == "origin") ≡ true → IsOwnOrigin host h.1) headers
        × (length (values_of "origin" headers) ≤ 1)
  unfolding refusal AreOwn
  refusal-none headers h =
      let (host, one, loopback, (own, few)) =
        judged-none (values_of "host" headers) (values_of "origin" headers) h in
      let same : All (λ v. v ≡ host) (values_of "host" headers) =
        subst (All (λ v. v ≡ host)) (sym one) (refl, tt) in
      (
        host,
        one,
        loopback,
        All-values_of "host" (λ v. v ≡ host) headers same,
        All-values_of "origin" (IsOwnOrigin host) headers own,
        few,
      )
