-- ===== src/Journal/Following/Held.antt =====
-- The dictionary of pending commands in `feed_from_records` of odoo_sheller/journal.py.
use odoo_sheller.Common.{
  ℕ, zero, suc, String, ◌≡◌, refl, sym, ap, subst, inl, inr, Bool, true, false, Option, none, some,
  List, [], ◌∷◌, arith, string_eq, nat_eq, Option-cases, length, lookup, length-append,
}
use odoo_sheller.Journal.{
  Actor, Command, Body, session_open, session_close, session_died, sent, result, timeout, boundary,
  interrupt, stderr, owner_changed, policy_changed, other,
}
use odoo_sheller.Journal.Feed.{
  Cell, FeedEntry, cell, ended, handed, policy, id_eq, Feed, fresh_cell, take_result, take_timeout,
  change_at, change_pending, append_entry, feed_step,
}
use odoo_sheller.Journal.Following.Places.{
  Agree, Below, KeepsId, take_result-KeepsId, take_timeout-KeepsId, Agree-change_at, Agree-append,
  Agree-sent,
}

-- Every pending id stands at the place of its own entry.
unfoldable pub Ok : Feed → Type 0
Ok d = Agree d.pending 0 d.entries × Below d.pending (length d.entries)

length-change_at :
    (n : ℕ) (f : Cell → Cell) (es : List FeedEntry) → length (change_at n f es) ≡ length es
unfolding change_at
length-change_at n f [] = refl
length-change_at zero f (e ∷ es) = refl
length-change_at (suc n) f (e ∷ es) = ap suc (length-change_at n f es)

pub change_pending-none :
    (id : Option ℕ) (f : Cell → Cell) (d : Feed)
    → lookup id d.pending ≡ none
    → change_pending id f d ≡ d
unfolding change_pending
change_pending-none id f d e = ground (arith, e)

pub change_pending-some :
    (id : Option ℕ) (f : Cell → Cell) (d : Feed) (n : ℕ)
    → lookup id d.pending ≡ some n
    → change_pending id f d ≡ record d { entries = change_at n f d.entries }
unfolding change_pending
change_pending-some id f d n e = ground (arith, e)

change_pending-Ok :
    (id : Option ℕ) (f : Cell → Cell) (d : Feed) → KeepsId f → Ok d → Ok (change_pending id f d)
unfolding Ok
change_pending-Ok id f d k (a, b) = elim (Option-cases (lookup id d.pending)) [
  | inl e ↦ subst Ok (sym (change_pending-none id f d e)) (a, b)
  | inr (n, e) ↦ subst Ok (sym (change_pending-some id f d n e)) (
    Agree-change_at d.pending 0 n f d.entries k a,
    subst (Below d.pending) (sym (length-change_at n f d.entries)) b,
  )
]

append_entry-Ok : (e : FeedEntry) (d : Feed) → Ok d → Ok (append_entry e d)
unfolding Ok append_entry Below
append_entry-Ok e d (a, b) = (
  Agree-append d.pending 0 d.entries e (λ id j at. omega (arith, b id j at)) a,
  λ id j at. omega (arith, b id j at, length-append d.entries (e ∷ [])),
)

sent-Ok :
    (id : Option ℕ) (c : Command) (by : Option Actor) (ts : Option String) (logs : Bool) (d : Feed)
    → Ok d
    → Ok (feed_step logs ts (sent id c by) d)
unfolding Ok feed_step Below
sent-Ok id c by ts logs d (a, b) = (
  Agree-sent d.pending 0 (length d.entries) d.entries (fresh_cell ts id (suc d.commands) c by)
      (omega arith) b a,
  λ k j at.
      ground (
        arith,
        b k j,
        length-append d.entries (cell (fresh_cell ts id (suc d.commands) c by) ∷ []),
      ),
)

pub feed_step-Ok :
    (logs : Bool) (ts : Option String) (body : Body) (d : Feed)
    → Ok d
    → Ok (feed_step logs ts body d)
unfolding feed_step
feed_step-Ok logs ts (session_open o) d h = h
feed_step-Ok logs ts session_close d h = h
feed_step-Ok logs ts session_died d h = h
feed_step-Ok logs ts (sent id c by) d h = sent-Ok id c by ts logs d h
feed_step-Ok logs ts (result late id a) d h =
    change_pending-Ok id (take_result late a) d (take_result-KeepsId late a) h
feed_step-Ok logs ts (timeout id seconds) d h =
    change_pending-Ok id take_timeout d take_timeout-KeepsId h
feed_step-Ok logs ts (boundary commits true by) d h = h
feed_step-Ok logs ts (boundary commits false by) d h = append_entry-Ok (ended commits by) d h
feed_step-Ok logs ts interrupt d h = h
feed_step-Ok true ts (stderr line) d h = unfold Ok in h
feed_step-Ok false ts (stderr line) d h = h
feed_step-Ok logs ts (owner_changed was now pending) d h = append_entry-Ok (handed was now) d h
feed_step-Ok logs ts (policy_changed p) d h = append_entry-Ok (policy p) d h
feed_step-Ok logs ts other d h = h
