-- ===== src/Journal/Following.antt =====
-- What a command's entry in the feed of odoo_sheller/journal.py should say, read from the lines
-- behind the command and without the dictionary of pending ones.
mod Places
mod Entries
mod Held
pub mod Whole
use odoo_sheller.Common.{
  ℕ, suc, String, Bool, false, Option, List, [], ◌∷◌, ◌++◌, if◌then◌else◌, ◌==◌, string_eq, nat_eq,
}
use odoo_sheller.Journal.{
  Body, sent, result, timeout, boundary, owner_changed, policy_changed, Line,
}
use odoo_sheller.Journal.Feed.{
  Cell, FeedEntry, cell, ended, handed, policy, id_eq, fresh_cell, take_result, take_timeout,
}

-- What one line says of the command with this id.
unfoldable pub touched : Option ℕ → Body → Cell → Cell
touched id (result late k a) c = if k == id then take_result late a c else c
touched id (timeout k seconds) c = if k == id then take_timeout c else c
touched id _ c = c

-- Whether the id is given away again.
unfoldable pub resent : Option ℕ → Body → Bool
resent id (sent k c by) = k == id
resent id _ = false

-- Every later line is heard, until the id is given away again.
unfoldable pub settled : Option ℕ → List Line → Cell → Cell
settled id [] c = c
settled id (l ∷ ls) c =
    let heard = settled id ls (touched id l.body c) in if resent id l.body then c else heard

-- The entries that one line adds, with what the lines behind it make of them.
unfoldable pub added : ℕ → List Line → Option String → Body → List FeedEntry
added n ls ts (sent id c by) = cell (settled id ls (fresh_cell ts id (suc n) c by)) ∷ []
added n ls ts (boundary commits failed by) = if failed then [] else ended commits by ∷ []
added n ls ts (owner_changed was now pending) = handed was now ∷ []
added n ls ts (policy_changed p) = policy p ∷ []
added n ls ts _ = []

unfoldable pub next_number : Body → ℕ → ℕ
next_number (sent id c by) n = suc n
next_number _ n = n

unfoldable pub replay : ℕ → List Line → List FeedEntry
replay n [] = []
replay n (l ∷ ls) = added n ls l.ts l.body ++ replay (next_number l.body n) ls
