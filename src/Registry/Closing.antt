-- ===== src/Registry/Closing.antt =====
-- How a session leaves the registry of odoo_sheller/registry.py, and what its sockets hear of it.
-- The session's own `close` or `kill` has run when `close_session` begins.
use odoo_sheller.Common.{
  ℕ, String, ◌≡◌, refl, ap, ◌∙◌, inl, inr, false, not, Option, none, some, List, [], ◌∷◌, ◌++◌,
  arith, eq_iff, ltb, if◌then◌else◌, ◌==◌, string_eq, nat_eq, Bool-cases, length, keep, contains,
  lookup,
}
use odoo_sheller.Registry.{
  event, hung_up, Board, queues_of, set_queue, hang_up, unwatch, deliver_all, broadcast, publish,
}
use odoo_sheller.Registry.Queues.{unwatch-LetsGo, untouched}

-- The sessions by id, with the queues, and the tasks that `_publish` has scheduled.
pub record Live (E : Type 0) : Type 0 where
  pub registered : List String
  pub board : Board E
  pub autocloses : List String

abbrev pub without : String → List String → List String
without id ids = keep (λ k. not (k == id)) ids

abbrev subscribe_in : String → ℕ → List (String × List ℕ) → List (String × List ℕ)
subscribe_in id q [] = (id, q ∷ []) ∷ []
subscribe_in id q ((k, qs) ∷ rest) =
    let later = subscribe_in id q rest in
    if k == id then (k, qs ++ q ∷ []) ∷ rest else (k, qs) ∷ later

-- `subscribers.pop(id, [])`, the dictionary behind it
abbrev pub pop_subscribers : String → List (String × List ℕ) → List (String × List ℕ)
pop_subscribers id subs = keep (λ e. not (e.0 == id)) subs

module _ {E : Type 0} where
  -- `subscribe`, or `none` where it raises `KeyError`
  unfoldable pub subscribe : String → ℕ → Live E → Option (Live E)
  subscribe id q l =
      if not (contains l.registered id)
      then none
      else some (record l {
        board = record l.board { subscribers = subscribe_in id q l.board.subscribers };
      })

  unfoldable pub hang_up_all : List ℕ → Board E → Board E
  hang_up_all [] b = b
  hang_up_all (q ∷ qs) b = hang_up_all qs (hang_up q b)

  -- `close` behind its await; `closed` is the `session_closed` event.
  unfoldable pub close_session : ℕ → String → E → Live E → Live E
  close_session limit id closed l =
      let qs = queues_of id l.board.subscribers in
      let popped : Board E = record l.board {
        subscribers = pop_subscribers id l.board.subscribers;
      } in
      record l {
        registered = without id l.registered;
        board = broadcast limit closed (hang_up_all qs popped);
      }

  -- `_publish` with the `autoclose` event, which is delivered and then schedules `_autoclose`.
  unfoldable pub publish_autoclose : ℕ → String → E → Live E → Live E
  publish_autoclose limit id e l = record l {
    board = publish limit id e false l.board;
    autocloses = l.autocloses ++ id ∷ [];
  }

  -- `_autoclose`, when its task comes to run
  unfoldable pub autoclose : ℕ → String → E → Live E → Live E
  autoclose limit id closed l =
      if not (contains l.registered id) then l else close_session limit id closed l

  hang_up_all-queues :
      (qs : List ℕ) (q : ℕ) (b : Board E)
      → (hang_up_all qs b).queues q ≡ (if contains qs q then hung_up ∷ [] else b.queues q)
  unfolding hang_up_all hang_up
  hang_up_all-queues [] q b = refl
  hang_up_all-queues (x ∷ qs) q b = hang_up_all-queues qs q (hang_up x b) ∙ ground arith

  hang_up_all-others :
      (qs : List ℕ) (b : Board E)
      → ((hang_up_all qs b).watchers ≡ b.watchers)
        × ((hang_up_all qs b).subscribers ≡ b.subscribers)
  unfolding hang_up_all hang_up
  hang_up_all-others [] b = (refl, refl)
  hang_up_all-others (x ∷ qs) b = hang_up_all-others qs (hang_up x b)

  pub deliver_all-subscribers :
      (limit : ℕ) (e : E) (qs : List ℕ) (b : Board E)
      → (deliver_all unwatch limit e qs b).subscribers ≡ b.subscribers
  unfolding deliver_all unwatch hang_up
  deliver_all-subscribers limit e [] b = refl
  deliver_all-subscribers limit e (q ∷ qs) b =
      let next : Board E =
        if ltb (length (b.queues q)) limit
        then set_queue q (b.queues q ++ event e ∷ []) b
        else hang_up q (unwatch q b) in
      deliver_all-subscribers limit e qs next ∙ ground arith

lookup-pop :
    (id : String) (subs : List (String × List ℕ)) → lookup id (pop_subscribers id subs) ≡ none
lookup-pop id [] = refl
lookup-pop id ((k, qs) ∷ rest) = elim (Bool-cases (k == id)) [
  | inl e ↦ rw e (lookup-pop id rest)
  | inr e ↦ rw e (rw e (lookup-pop id rest))
]

pub contains-without : (id : String) (ids : List String) → contains (without id ids) id ≡ false
contains-without id [] = refl
contains-without id (k ∷ ids) = elim (Bool-cases (k == id)) [
  | inl e ↦ rw e (contains-without id ids)
  | inr e ↦ rw e (ground (arith, e, eq_iff k id, eq_iff id k, contains-without id ids))
]

module _ {E : Type 0} where
  -- When a session is closed, every socket that listens to it and to nothing else is told so: the one
  -- thing left for its reader is the hang-up, whatever it had not read yet. The session is then not
  -- registered and nobody listens to it; a queue that neither listened to it nor watches the registry
  -- keeps what it holds; and an autoclose that was still due does nothing more.
  pub close_session-hang_up :
      (limit : ℕ) (id : String) (closed again : E) (l : Live E)
      → let after = close_session limit id closed l in
        ((q : ℕ)
          → contains l.board.watchers q ≡ false
          → after.board.queues q ≡ (
              if contains (queues_of id l.board.subscribers) q
              then hung_up ∷ []
              else l.board.queues q))
        × (contains after.registered id ≡ false)
        × (queues_of id after.board.subscribers ≡ [])
        × (autoclose limit id again after ≡ after)
  unfolding close_session autoclose broadcast
  close_session-hang_up limit id closed again l =
      let qs = queues_of id l.board.subscribers in
      let popped : Board E = record l.board {
        subscribers = pop_subscribers id l.board.subscribers;
      } in
      let b : Board E = hang_up_all qs popped in
      let (watch_same, subs_same) = hang_up_all-others qs popped in
      let gone = contains-without id l.registered in
      let none_left : lookup id (deliver_all unwatch limit closed b.watchers b).subscribers ≡ none =
        ap (lookup id) (deliver_all-subscribers limit closed b.watchers b ∙ subs_same)
        ∙ lookup-pop id l.board.subscribers in
      (
        (λ q outside.
            let apart : contains b.watchers q ≡ false =
              ap (λ ws. contains ws q) watch_same ∙ outside in
            untouched unwatch limit closed b.watchers q b unwatch-LetsGo apart
            ∙ hang_up_all-queues qs q popped),
        gone,
        ground (arith, none_left),
        ground (arith, gone),
      )
