-- ===== src/Registry/Starting.antt =====
-- The second half of `Registry.open` in odoo_sheller/registry.py: what the registry and its sockets
-- see of a session that starts, or fails to. The spawn, the hello and the `kill` behind a failure are
-- the session's.
use odoo_sheller.Common.{
  ℕ, String, ◌≡◌, ap, Bool, true, false, none, [], ◌∷◌, ◌++◌, arith, ltb, if◌then◌else◌, string_eq,
  nat_eq, length, contains,
}
use odoo_sheller.Registry.{event, hung_up, queues_of, broadcast}
use odoo_sheller.Registry.Queues.{Distinct, broadcast_delivers}
use odoo_sheller.Registry.Closing.{
  Live, without, subscribe, deliver_all-subscribers, contains-without,
}

module _ {E : Type 0} where
  -- The session is registered, and `session_starting` is sent before its hello.
  unfoldable pub announce_start : ℕ → String → E → Live E → Live E
  announce_start limit id starting l = record l {
    registered = without id l.registered ++ id ∷ [];
    board = broadcast limit starting l.board;
  }

  -- The `except` branch; `announced` is whether `session_starting` was sent.
  unfoldable pub start_failed : ℕ → String → E → Bool → Live E → Live E
  start_failed limit id failed announced l = record l {
    registered = without id l.registered;
    board = if announced then broadcast limit failed l.board else l.board;
  }

  -- `session_opened`
  unfoldable pub start_done : ℕ → E → Live E → Live E
  start_done limit opened l = record l { board = broadcast limit opened l.board }

  -- A start that fails after it was announced takes the session out of the registry, so no socket can
  -- begin to listen to it; every watcher with room hears that it failed, behind what it had, and one
  -- without room is hung up on. But the sockets that began to listen to it meanwhile, unlike those of
  -- a session that is closed, stay listed as its listeners, and one that does not watch the registry
  -- holds what it held: nothing hangs it up. No queue is taken to watch twice.
  pub start_failed-listeners :
      (limit : ℕ) (id : String) (failed : E) (l : Live E)
      → Distinct l.board.watchers
      → let after = start_failed limit id failed true l in
        (contains after.registered id ≡ false)
        × ((q : ℕ) → subscribe id q after ≡ none)
        × ((q : ℕ)
            → after.board.queues q ≡ (
                if contains l.board.watchers q
                then (if ltb (length (l.board.queues q)) limit
                    then l.board.queues q ++ event failed ∷ []
                    else hung_up ∷ [])
                else l.board.queues q))
        × (queues_of id after.board.subscribers ≡ queues_of id l.board.subscribers)
  unfolding start_failed subscribe broadcast
  start_failed-listeners limit id failed l d =
      let gone = contains-without id l.registered in
      (
        gone,
        (λ q. ground (arith, gone)),
        (λ q. unfold broadcast in broadcast_delivers limit failed l.board q d),
        ap (queues_of id) (deliver_all-subscribers limit failed l.board.watchers l.board),
      )
