-- ===== src/Journal/Following/Whole.antt =====
-- `feed_from_records` of odoo_sheller/journal.py as a whole.
use odoo_sheller.Common.{
  ℕ, suc, ◌+◌, ◌≤◌, String, ◌≡◌, refl, sym, ap, ◌∙◌, ◌≢◌, inl, inr, Bool, true, false, Option, some,
  List, [], ◌∷◌, ◌++◌, arith, string_eq, nat_eq, Option-cases, length, lookup, append-nil,
  append_assoc,
}
use odoo_sheller.Journal.{
  Actor, Command, Body, session_open, session_close, session_died, sent, result, timeout, boundary,
  interrupt, stderr, owner_changed, policy_changed, other, Line,
}
use odoo_sheller.Journal.Feed.{
  Cell, FeedEntry, cell, ended, handed, policy, id_beq_iff, id_eq, Feed, empty_feed, fresh_cell,
  take_result, take_timeout, change_pending, append_entry, feed_step, feed_loop, feed_from_records,
}
use odoo_sheller.Journal.Following.{touched, resent, settled, added, next_number, replay}
use odoo_sheller.Journal.Following.Places.{
  Pending, follow_one, follow, Agree, Below, KeepsId, take_result-KeepsId, take_timeout-KeepsId,
}
use odoo_sheller.Journal.Following.Entries.{
  Deaf, follow-Deaf, follow-append, Changes, follow-apart, follow-change_at, follow-sent,
}
use odoo_sheller.Journal.Following.Held.{Ok, change_pending-none, change_pending-some, feed_step-Ok}

-- The entries so far, with what the lines still to come say of them.
foreseen : Feed → List Line → List FeedEntry
foreseen d ls = follow d.pending 0 ls d.entries

follow-change_pending :
    (id : Option ℕ) (f : Cell → Cell) (l : Line) (ls : List Line) (d : Feed)
    → KeepsId f
    → Changes id f l
    → Ok d
    → foreseen (change_pending id f d) ls ≡ foreseen d (l ∷ ls)
unfolding foreseen Ok
follow-change_pending id f l ls d k h (a, b) = elim (Option-cases (lookup id d.pending)) [
  | inl e ↦
      let apart : (m : ℕ) → 0 ≤ m → lookup id d.pending ≢ some m =
        λ m le eq. ground (arith, e, eq) in
      ap (λ c. foreseen c ls) (change_pending-none id f d e)
      ∙ follow-apart d.pending id f 0 l ls d.entries h apart
  | inr (n, e) ↦
      ap (λ c. foreseen c ls) (change_pending-some id f d n e)
      ∙ follow-change_at d.pending id f 0 n l ls d.entries k h a (e ∙ ap some (omega arith))
]

follow-append_entry :
    (e : FeedEntry) (l : Line) (ls : List Line) (d : Feed)
    → Deaf l
    → follow_one d.pending (length d.entries) ls e ≡ e
    → foreseen (append_entry e d) ls ≡ foreseen d (l ∷ ls) ++ e ∷ []
unfolding foreseen append_entry follow
follow-append_entry e l ls d h s =
    follow-append d.pending 0 ls d.entries (e ∷ [])
    ∙ ap (λ k. follow d.pending 0 ls d.entries ++ follow_one d.pending k ls e ∷ []) (omega arith)
    ∙ ap (λ x. follow d.pending 0 ls d.entries ++ x ∷ []) s
    ∙ ap (λ es. es ++ e ∷ []) (follow-Deaf d.pending 0 l ls d.entries h)

neutral :
    (l : Line) (ls : List Line) (d : Feed) → Deaf l → foreseen d ls ≡ foreseen d (l ∷ ls) ++ []
unfolding foreseen
neutral l ls d s = follow-Deaf d.pending 0 l ls d.entries s ∙ sym (append-nil _)

foreseen-sent :
    (id : Option ℕ) (c : Command) (by : Option Actor) (ts : Option String) (ls : List Line)
    (logs : Bool) (d : Feed)
    → foreseen (feed_step logs ts (sent id c by) d) ls
      ≡ foreseen d (record { ts = ts; body = sent id c by } ∷ ls)
        ++ cell (settled id ls (fresh_cell ts id (suc d.commands) c by)) ∷ []
unfolding foreseen feed_step
foreseen-sent id c by ts ls logs d =
    let p : Pending = (id, length d.entries) ∷ d.pending in
    let new : Cell = fresh_cell ts id (suc d.commands) c by in
    let before : follow d.pending 0 (record { ts = ts; body = sent id c by } ∷ ls) d.entries
        ≡ follow p 0 ls d.entries =
      sym (follow-sent d.pending id c by ts 0 (length d.entries) ls d.entries (omega arith)) in
    let here : follow p (0 + length d.entries) ls (cell new ∷ []) ≡ cell (settled id ls new) ∷ [] =
      unfold follow follow_one in ground (arith, id_beq_iff id id) in
    follow-append p 0 ls d.entries (cell new ∷ [])
    ∙ ap (λ es. follow p 0 ls d.entries ++ es) here
    ∙ ap (λ es. es ++ cell (settled id ls new) ∷ []) (sym before)

-- One turn of the loop is foreseen.
foreseen-feed_step :
    (logs : Bool) (ts : Option String) (body : Body) (ls : List Line) (d : Feed)
    → Ok d
    → foreseen (feed_step logs ts body d) ls
      ≡ foreseen d (record { ts = ts; body = body } ∷ ls) ++ added d.commands ls ts body
unfolding added feed_step Deaf settled touched resent Changes follow_one
foreseen-feed_step logs ts (session_open o) ls d h = neutral _ ls d (λ id ms c. refl)
foreseen-feed_step logs ts session_close ls d h = neutral _ ls d (λ id ms c. refl)
foreseen-feed_step logs ts session_died ls d h = neutral _ ls d (λ id ms c. refl)
foreseen-feed_step logs ts (sent id c by) ls d h = foreseen-sent id c by ts ls logs d
foreseen-feed_step logs ts (result late id a) ls d h =
    follow-change_pending id (take_result late a) _ ls d (take_result-KeepsId late a)
      (λ k ms c. refl) h
    ∙ sym (append-nil _)
foreseen-feed_step logs ts (timeout id seconds) ls d h =
    follow-change_pending id take_timeout _ ls d take_timeout-KeepsId (λ k ms c. refl) h
    ∙ sym (append-nil _)
foreseen-feed_step logs ts (boundary commits true by) ls d h = neutral _ ls d (λ id ms c. refl)
foreseen-feed_step logs ts (boundary commits false by) ls d h =
    follow-append_entry (ended commits by) _ ls d (λ id ms c. refl) refl
foreseen-feed_step logs ts interrupt ls d h = neutral _ ls d (λ id ms c. refl)
foreseen-feed_step true ts (stderr line) ls d h =
    unfold foreseen in neutral _ ls d (λ id ms c. refl)
foreseen-feed_step false ts (stderr line) ls d h = neutral _ ls d (λ id ms c. refl)
foreseen-feed_step logs ts (owner_changed was now pending) ls d h =
    follow-append_entry (handed was now) _ ls d (λ id ms c. refl) refl
foreseen-feed_step logs ts (policy_changed p) ls d h =
    follow-append_entry (policy p) _ ls d (λ id ms c. refl) refl
foreseen-feed_step logs ts other ls d h = neutral _ ls d (λ id ms c. refl)

commands-feed_step :
    (logs : Bool) (ts : Option String) (body : Body) (d : Feed)
    → (feed_step logs ts body d).commands ≡ next_number body d.commands
unfolding feed_step next_number change_pending append_entry
commands-feed_step logs ts body d = ground arith

settled_all : (p : Pending) (i : ℕ) (es : List FeedEntry) → follow p i [] es ≡ es
unfolding follow follow_one settled
settled_all p i [] = refl
settled_all p i (cell c ∷ es) = ground (arith, settled_all p (suc i) es)
settled_all p i (ended commits by ∷ es) =
    ap (λ rest. ended commits by ∷ rest) (settled_all p (suc i) es)
settled_all p i (handed was now ∷ es) =
    ap (λ rest. handed was now ∷ rest) (settled_all p (suc i) es)
settled_all p i (policy q ∷ es) = ap (λ rest. policy q ∷ rest) (settled_all p (suc i) es)

feed_loop-entries :
    (logs : Bool) (ls : List Line) (d : Feed)
    → Ok d
    → (feed_loop logs ls d).entries ≡ foreseen d ls ++ replay d.commands ls
unfolding feed_loop replay
feed_loop-entries logs [] d h =
    unfold foreseen in sym (append-nil _ ∙ settled_all d.pending 0 d.entries)
feed_loop-entries logs (l ∷ ls) d h =
    let next : Feed = feed_step logs l.ts l.body d in
    feed_loop-entries logs ls next (feed_step-Ok logs l.ts l.body d h)
    ∙ ap (λ es. es ++ replay next.commands ls) (foreseen-feed_step logs l.ts l.body ls d h)
    ∙ append_assoc (foreseen d (l ∷ ls)) (added d.commands ls l.ts l.body) (replay next.commands ls)
    ∙ ap (λ n. foreseen d (l ∷ ls) ++ (added d.commands ls l.ts l.body ++ replay n ls))
        (commands-feed_step logs l.ts l.body d)

-- The feed's entries are those of a reading without the dictionary of pending commands: a command
-- gets an entry with the next number, which then says what the results, late results and timeouts
-- behind it say, as long as their id is not sent again; a commit or rollback without an error, a
-- handover and a change of policy get one; no other line does.
pub feed_from_records-replay :
    (ls : List Line) (logs : Bool) (tail : Option ℕ)
    → (feed_from_records ls logs tail).1 ≡ replay 0 ls
unfolding feed_from_records
feed_from_records-replay ls logs tail =
    feed_loop-entries logs ls empty_feed
      (unfold Ok Agree Below in (tt, λ id j at. absurd (ground (arith, at))))
    ∙ (unfold foreseen follow in refl)
