-- ===== src/Mcp/Tools/Held.antt =====
-- The keys that the server of odoo_sheller/mcp.py holds and sends, and what keeps them right.
use odoo_sheller.Common.{
  ℕ, String, ◌≡◌, refl, sym, subst, inl, inr, Bool, true, false, Option, none, some, List, [], ◌∷◌,
  arith, eq_iff, ◌==◌, string_eq, nat_eq, Bool-cases, keep, All, All-append, lookup,
}
use odoo_sheller.Mcp.{Sent, Server, hold, header, request_of, call}
use odoo_sheller.Mcp.Tools.{with_rules}

-- `G id key`: the key was given for this session, by the daemon that opened it or by the caller.
module _ (G : String → String → Type 0) where
  abbrev pub Holds : List (String × String) → Type 0
  Holds [] = Unit
  Holds ((id, key) ∷ m) = G id key × Holds m

  abbrev pub SentRight : Sent → Type 0
  SentRight q = elim q.key [
    | none ↦ Unit {0}
    | some key ↦ elim q.session [ none ↦ ⊥ | some id ↦ G id key ]
  ]

  -- The server holds and has sent given keys only, each to its own session.
  pub record IsSound (s : Server) : Type 0 where
    pub holds : Holds s.held
    pub sends : All SentRight s.sent

  pub Holds-hold :
      (id key : String) (m : List (String × String)) → G id key → Holds m → Holds (hold id key m)
  Holds-hold id key [] g h = (g, tt)
  Holds-hold id key ((j, k) ∷ m) g (gj, h) = elim (Bool-cases (j == id)) [
    | inl e ↦ rw e (subst (λ i. G i key) (sym ((eq_iff j id).0 e)) g, h)
    | inr e ↦ rw e (gj, Holds-hold id key m g h)
  ]

  pub Holds-keep :
      (p : String × String → Bool) (m : List (String × String)) → Holds m → Holds (keep p m)
  Holds-keep p [] h = tt
  Holds-keep p ((j, k) ∷ m) (g, h) = elim (Bool-cases (p (j, k))) [
    | inl e ↦ rw e (g, Holds-keep p m h)
    | inr e ↦ rw e (Holds-keep p m h)
  ]

  lookup-Holds :
      (id : String) (m : List (String × String)) (key : String)
      → Holds m
      → lookup id m ≡ some key
      → G id key
  lookup-Holds id [] key h e = cc
  lookup-Holds id ((j, k) ∷ m) key (g, h) e = elim (Bool-cases (j == id)) [
    | inl same ↦
        let own : k ≡ key = ground (arith, same) in
        subst (λ i. G i key) ((eq_iff j id).0 same) (subst (λ w. G j w) own g)
    | inr other ↦ lookup-Holds id m key h (ground (arith, other))
  ]

  header_right :
      (method path id : String) (key : Option String)
      → ((k : String) → key ≡ some k → G id k)
      → SentRight (record { method = method; path = path; session = some id; key = key })
  header_right method path id none h = tt
  header_right method path id (some k) h = h k refl

  sent_right :
      (method path : String) (about : Option String) (s : Server)
      → Holds s.held
      → SentRight (request_of method path about s)
  sent_right method path none s h = tt
  sent_right method path (some id) s h =
      header_right method path id (header (some id) s) (found (id == "") refl)
    where
      found : (b : Bool) → (id == "") ≡ b → (k : String) → header (some id) s ≡ some k → G id k
      found true e k at = absurd (ground (arith, e, at))
      found false e k at = lookup-Holds id s.held k h (ground (arith, e, at))

  pub call-IsSound :
      (method path : String) (about : Option String) (s : Server)
      → IsSound s
      → IsSound (call method path about s)
  unfolding call
  call-IsSound method path about s v = record {
    holds = v.holds;
    sends =
        All-append SentRight s.sent (request_of method path about s ∷ []) v.sends
          (sent_right method path about s v.holds, tt);
  }

  pub held-IsSound :
      (m : List (String × String)) (s : Server)
      → Holds m
      → IsSound s
      → IsSound (record s { held = m })
  held-IsSound m s h v = record { holds = h; sends = v.sends }

  pub with_rules-IsSound :
      (for_major : ℕ → Option String) (odoo : Option String) (s : Server)
      → IsSound s
      → IsSound (with_rules for_major odoo s).0
  unfolding with_rules
  with_rules-IsSound for_major odoo s v =
      let same : ((with_rules for_major odoo s).0.held ≡ s.held)
          × ((with_rules for_major odoo s).0.sent ≡ s.sent) =
        (ground arith, ground arith) in
      record {
        holds = subst Holds (sym same.0) v.holds;
        sends = subst (All SentRight) (sym same.1) v.sends;
      }
