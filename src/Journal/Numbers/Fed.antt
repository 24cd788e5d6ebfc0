-- ===== src/Journal/Numbers/Fed.antt =====
-- The commands of a feed of odoo_sheller/journal.py.
use odoo_sheller.Common.{
  ℕ, suc, String, ◌≡◌, refl, sym, ap, ◌∙◌, inl, inr, true, false, Option, List, [], ◌∷◌, ◌++◌,
  arith, Bool-cases, append_assoc,
}
use odoo_sheller.Journal.{
  Body, session_open, session_close, session_died, sent, result, timeout, boundary, interrupt,
  stderr, owner_changed, policy_changed, other, Line,
}
use odoo_sheller.Journal.Feed.{Cell, FeedEntry, fresh_cell, take_result, take_timeout}
use odoo_sheller.Journal.Following.{touched, resent, settled, added, next_number, replay}
use odoo_sheller.Journal.Numbers.{cell_of, cells, command_of, commands_from}

touched-same :
    (id : Option ℕ) (b : Body) (c : Cell)
    → ((touched id b c).ordinal ≡ c.ordinal) × ((touched id b c).command ≡ c.command)
unfolding touched take_result take_timeout
touched-same id (result behind k a) c = (ground arith, ground arith)
touched-same id (timeout k seconds) c = (ground arith, ground arith)
touched-same id (session_open o) c = (refl, refl)
touched-same id session_close c = (refl, refl)
touched-same id session_died c = (refl, refl)
touched-same id (sent k d by) c = (refl, refl)
touched-same id (boundary commits failed by) c = (refl, refl)
touched-same id interrupt c = (refl, refl)
touched-same id (stderr line) c = (refl, refl)
touched-same id (owner_changed was now pending) c = (refl, refl)
touched-same id (policy_changed p) c = (refl, refl)
touched-same id other c = (refl, refl)

settled-same :
    (id : Option ℕ) (ls : List Line) (c : Cell)
    → ((settled id ls c).ordinal ≡ c.ordinal) × ((settled id ls c).command ≡ c.command)
unfolding settled
settled-same id [] c = (refl, refl)
settled-same id (l ∷ ls) c =
    let (n, m) = settled-same id ls (touched id l.body c) in
    let (a, b) = touched-same id l.body c in
    elim (Bool-cases (resent id l.body)) [
      | inl e ↦ (ground (arith, e), ground (arith, e))
      | inr e ↦ (ground (arith, e, n, a), ground (arith, e, m, b))
    ]

cells-append : (es fs : List FeedEntry) → cells (es ++ fs) ≡ cells es ++ cells fs
unfolding cells
cells-append [] fs = refl
cells-append (e ∷ es) fs =
    ap (λ rest. cell_of e ++ rest) (cells-append es fs)
    ∙ sym (append_assoc (cell_of e) (cells es) (cells fs))

cells-added :
    (n : ℕ) (ls : List Line) (ts : Option String) (b : Body)
    → cells (added n ls ts b) ≡ command_of n b
unfolding cells cell_of added command_of
cells-added n ls ts (sent id c by) =
    let (a, b) = settled-same id ls (fresh_cell ts id (suc n) c by) in
    ap (λ m. (m, (settled id ls (fresh_cell ts id (suc n) c by)).command) ∷ []) a
    ∙ ap (λ d. (suc n, d) ∷ []) b
cells-added n ls ts (boundary commits true by) = refl
cells-added n ls ts (boundary commits false by) = refl
cells-added n ls ts (result behind k a) = refl
cells-added n ls ts (timeout k seconds) = refl
cells-added n ls ts (session_open o) = refl
cells-added n ls ts session_close = refl
cells-added n ls ts session_died = refl
cells-added n ls ts interrupt = refl
cells-added n ls ts (stderr line) = refl
cells-added n ls ts (owner_changed was now pending) = refl
cells-added n ls ts (policy_changed p) = refl
cells-added n ls ts other = refl

pub cells-replay : (n : ℕ) (ls : List Line) → cells (replay n ls) ≡ commands_from n ls
unfolding replay commands_from
cells-replay n [] = unfold cells in refl
cells-replay n (l ∷ ls) =
    cells-append (added n ls l.ts l.body) (replay (next_number l.body n) ls)
    ∙ ap (λ rest. cells (added n ls l.ts l.body) ++ rest) (cells-replay (next_number l.body n) ls)
    ∙ ap (λ first. first ++ commands_from (next_number l.body n) ls) (cells-added n ls l.ts l.body)
