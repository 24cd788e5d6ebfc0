-- ===== src/Registry/Queues.antt =====
-- The queues of the sockets in odoo_sheller/registry.py.
use odoo_sheller.Common.{
  ℕ, ◌≡◌, refl, ap, ◌∙◌, subst, inl, inr, true, false, not, ◌&&◌, ◌||◌, List, [], ◌∷◌, ◌++◌, arith,
  ltb, if◌then◌else◌, ◌==◌, string_eq, nat_eq, Bool-cases, length, contains,
}
use odoo_sheller.Registry.{
  event, hung_up, Board, remove_first, set_queue, hang_up, unwatch, deliver_all, broadcast,
}

abbrev pub Distinct : List ℕ → Type 0
Distinct [] = Unit
Distinct (q ∷ qs) = (contains qs q ≡ false) × Distinct qs

contains-remove_first :
    (q x : ℕ) (xs : List ℕ)
    → Distinct xs
    → contains (remove_first q xs) x ≡ (contains xs x && not (x == q))
contains-remove_first q x [] d = refl
contains-remove_first q x (y ∷ ys) (d, ds) = elim (Bool-cases (y == q)) [
  | inl e ↦
      let same : y ≡ q = ground (arith, e) in
      rw e (elim (Bool-cases (x == y)) [
        | inl k ↦
            let own : y ≡ x = ground (arith, k) in
            let gone : contains ys x ≡ false = subst (λ z. contains ys z ≡ false) own d in
            ground (arith, gone, k, same)
        | inr k ↦ ground (arith, k, same)
      ])
  | inr e ↦ rw e (ground (arith, contains-remove_first q x ys ds, e))
]

Distinct-remove_first : (q : ℕ) (xs : List ℕ) → Distinct xs → Distinct (remove_first q xs)
Distinct-remove_first q [] d = tt
Distinct-remove_first q (y ∷ ys) (d, ds) = elim (Bool-cases (y == q)) [
  | inl e ↦ rw e ds
  | inr e ↦ rw e (ground (arith, contains-remove_first q y ys ds, d), Distinct-remove_first q ys ds)
]

module _ {E : Type 0} where
  -- Letting go of a queue leaves what is queued as it is.
  abbrev pub LetsGo : (ℕ → Board E → Board E) → Type 0
  LetsGo let_go = (q : ℕ) (b : Board E) → (let_go q b).queues ≡ b.queues

  -- One turn of the loop.
  put : (ℕ → Board E → Board E) → ℕ → E → ℕ → Board E → Board E
  put let_go limit e q b =
      if ltb (length (b.queues q)) limit
      then set_queue q (b.queues q ++ event e ∷ []) b
      else hang_up q (let_go q b)

  put-same :
      (let_go : ℕ → Board E → Board E) (limit : ℕ) (e : E) (q : ℕ) (b : Board E)
      → LetsGo let_go
      → (put let_go limit e q b).queues q
        ≡ (if ltb (length (b.queues q)) limit then b.queues q ++ event e ∷ [] else hung_up ∷ [])
  unfolding put hang_up
  put-same let_go limit e q b g = elim (Bool-cases (ltb (length (b.queues q)) limit)) [
    | inl k ↦ rw k (ground arith)
    | inr k ↦ rw k (ground arith)
  ]

  put-other :
      (let_go : ℕ → Board E → Board E) (limit : ℕ) (e : E) (q x : ℕ) (b : Board E)
      → LetsGo let_go
      → x == q ≡ false
      → (put let_go limit e q b).queues x ≡ b.queues x
  unfolding put hang_up
  put-other let_go limit e q x b g n = elim (Bool-cases (ltb (length (b.queues q)) limit)) [
    | inl k ↦ rw (k, n) refl
    | inr k ↦ rw (k, n, g q b) refl
  ]

  pub unwatch-LetsGo : LetsGo unwatch
  unfolding unwatch
  unwatch-LetsGo q b = refl

  pub untouched :
      (let_go : ℕ → Board E → Board E) (limit : ℕ) (e : E) (qs : List ℕ) (x : ℕ) (b : Board E)
      → LetsGo let_go
      → contains qs x ≡ false
      → (deliver_all let_go limit e qs b).queues x ≡ b.queues x
  unfolding deliver_all put
  untouched let_go limit e [] x b g n = refl
  untouched let_go limit e (q ∷ qs) x b g n =
      untouched let_go limit e qs x (put let_go limit e q b) g (ground arith)
      ∙ put-other let_go limit e q x b g (ground arith)

  delivered :
      (let_go : ℕ → Board E → Board E) (limit : ℕ) (e : E) (qs : List ℕ) (x : ℕ) (b : Board E)
      → LetsGo let_go
      → Distinct qs
      → contains qs x ≡ true
      → (deliver_all let_go limit e qs b).queues x
        ≡ (if ltb (length (b.queues x)) limit then b.queues x ++ event e ∷ [] else hung_up ∷ [])
  unfolding deliver_all put
  delivered let_go limit e [] x b g d n = cc
  delivered let_go limit e (q ∷ qs) x b g (d, ds) n = elim (Bool-cases (x == q)) [
    | inl k ↦
        let same : q ≡ x = ground arith in
        subst
          (λ y. (deliver_all let_go limit e qs (put let_go limit e q b)).queues y ≡ (
            if ltb (length (b.queues y)) limit then b.queues y ++ event e ∷ [] else hung_up ∷ []))
          same
          (untouched let_go limit e qs q (put let_go limit e q b) g d
            ∙ put-same let_go limit e q b g)
    | inr k ↦
        let kept = put-other let_go limit e q x b g k in
        delivered let_go limit e qs x (put let_go limit e q b) g ds (ground arith)
        ∙ ap (λ items. if ltb (length items) limit then items ++ event e ∷ [] else hung_up ∷ [])
            kept
  ]

  -- Where no queue watches twice, a broadcast reaches every watcher that has room, behind what is
  -- queued there already, and hangs up on every one that has none, whatever the others do; no
  -- other queue changes.
  pub broadcast_delivers :
      (limit : ℕ) (e : E) (b : Board E) (x : ℕ)
      → Distinct b.watchers
      → (broadcast limit e b).queues x ≡ (
          if contains b.watchers x
          then (if ltb (length (b.queues x)) limit
              then b.queues x ++ event e ∷ []
              else hung_up ∷ [])
          else b.queues x)
  unfolding broadcast
  broadcast_delivers limit e b x d = elim (Bool-cases (contains b.watchers x)) [
    | inl k ↦ rw k (delivered unwatch limit e b.watchers x b unwatch-LetsGo d k)
    | inr k ↦ rw k (untouched unwatch limit e b.watchers x b unwatch-LetsGo k)
  ]

  put-watchers :
      (limit : ℕ) (e : E) (q : ℕ) (b : Board E)
      → (put unwatch limit e q b).watchers
        ≡ (if ltb (length (b.queues q)) limit then b.watchers else remove_first q b.watchers)
  unfolding put hang_up unwatch
  put-watchers limit e q b = elim (Bool-cases (ltb (length (b.queues q)) limit)) [
    | inl k ↦ rw k refl
    | inr k ↦ rw k refl
  ]

  put-Distinct :
      (limit : ℕ) (e : E) (q : ℕ) (b : Board E)
      → Distinct b.watchers
      → Distinct (put unwatch limit e q b).watchers
  put-Distinct limit e q b d =
      rw (put-watchers limit e q b) (elim (Bool-cases (ltb (length (b.queues q)) limit)) [
        | inl k ↦ rw k d
        | inr k ↦ rw k (Distinct-remove_first q b.watchers d)
      ])

  still_watching :
      (limit : ℕ) (e : E) (q x : ℕ) (b : Board E)
      → Distinct b.watchers
      → contains (put unwatch limit e q b).watchers x
        ≡ (contains b.watchers x && (not (x == q) || ltb (length (b.queues q)) limit))
  still_watching limit e q x b d =
      rw (put-watchers limit e q b) (elim (Bool-cases (ltb (length (b.queues q)) limit)) [
        | inl k ↦ rw k (ground arith)
        | inr k ↦ rw k (ground (arith, contains-remove_first q x b.watchers d))
      ])

  watching_on :
      (limit : ℕ) (e : E) (qs : List ℕ) (x : ℕ) (b : Board E)
      → Distinct b.watchers
      → Distinct qs
      → contains (deliver_all unwatch limit e qs b).watchers x
        ≡ (contains b.watchers x && (not (contains qs x) || ltb (length (b.queues x)) limit))
  unfolding deliver_all put
  watching_on limit e [] x b d ds = ground arith
  watching_on limit e (q ∷ qs) x b d (n, ds) =
      let later =
        watching_on limit e qs x (put unwatch limit e q b) (put-Distinct limit e q b d) ds in
      let here = still_watching limit e q x b d in
      elim (Bool-cases (x == q)) [
        | inl k ↦
            let same : q ≡ x = ground (arith, k) in
            let once : contains qs x ≡ false = subst (λ z. contains qs z ≡ false) same n in
            let room : ltb (length (b.queues q)) limit ≡ ltb (length (b.queues x)) limit =
              ap (λ z. ltb (length (b.queues z)) limit) same in
            later ∙ ground (arith, here, once, room, k)
        | inr k ↦
            let kept : ltb (length ((put unwatch limit e q b).queues x)) limit
                ≡ ltb (length (b.queues x)) limit =
              ap (λ items. ltb (length items) limit)
                (put-other unwatch limit e q x b unwatch-LetsGo k) in
            later ∙ ground (arith, here, kept, k)
      ]

  -- Where no queue watches twice and an event is broadcast: a watcher that has room has the event
  -- behind what was queued, and goes on watching; one that is full is told that it is over, in place
  -- of all that it had not read, and is let go; any other queue is as it was and no watcher.
  pub broadcast_lem :
      (limit : ℕ) (e : E) (b : Board E) (x : ℕ)
      → Distinct b.watchers
      → let has_room = ltb (length (b.queues x)) limit in
        let watched = contains b.watchers x in
        let after = broadcast limit e b in
        (after.queues x ≡ (
          if watched
          then (if has_room then b.queues x ++ event e ∷ [] else hung_up ∷ [])
          else b.queues x))
        × (contains after.watchers x ≡ (watched && has_room))
  broadcast_lem limit e b x d = (
    broadcast_delivers limit e b x d,
    unfold broadcast in watching_on limit e b.watchers x b d d ∙ ground arith,
  )
