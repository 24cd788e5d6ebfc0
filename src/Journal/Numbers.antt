-- ===== src/Journal/Numbers.antt =====
-- What the readers of odoo_sheller/journal.py number: the commands of a journal.
mod Fed
mod Told
pub mod Agreeing
use odoo_sheller.Common.{
  ℕ, zero, suc, ◌+◌, String, ◌≡◌, refl, sym, ap, subst, ◌⊎◌, inl, inr, Option, List, [], ◌∷◌, ◌++◌,
  arith, length, length-append,
}
use odoo_sheller.Journal.{
  Command, Body, session_open, session_close, session_died, sent, result, timeout, boundary,
  interrupt, stderr, owner_changed, policy_changed, other, Line, Summary, note_times, note_body,
  summarise,
}
use odoo_sheller.Journal.Feed.{FeedEntry, cell}
use odoo_sheller.Journal.Markdown.{Block, heading}
use odoo_sheller.Journal.Following.{next_number}

abbrev pub Numbered : Type 0
Numbered = List (ℕ × Command)

unfoldable pub heading_of : Block → Numbered
heading_of (heading n c by ts) = (n, c) ∷ []
heading_of _ = []

-- The numbers that a transcript's headings give, and the commands.
unfoldable pub headings : List Block → Numbered
headings [] = []
headings (b ∷ bs) = heading_of b ++ headings bs

unfoldable pub cell_of : FeedEntry → Numbered
cell_of (cell c) = (c.ordinal, c.command) ∷ []
cell_of _ = []

-- The numbers that a feed gives, and the commands.
unfoldable pub cells : List FeedEntry → Numbered
cells [] = []
cells (e ∷ es) = cell_of e ++ cells es

unfoldable pub command_of : ℕ → Body → Numbered
command_of n (sent id c by) = (suc n, c) ∷ []
command_of n _ = []

-- The commands of the lines, numbered behind `n`.
unfoldable pub commands_from : ℕ → List Line → Numbered
commands_from n [] = []
commands_from n (l ∷ ls) = command_of n l.body ++ commands_from (next_number l.body n) ls

unfoldable pub count_from : ℕ → ℕ → List ℕ
count_from n zero = []
count_from n (suc k) = suc n ∷ count_from (suc n) k

unfoldable pub numbers : Numbered → List ℕ
numbers [] = []
numbers ((n, c) ∷ cs) = n ∷ numbers cs

command-cases :
    (b : Body) (n : ℕ)
    → ((command_of n b ≡ []) × (next_number b n ≡ n))
      ⊎ ((c : Command) × (command_of n b ≡ (suc n, c) ∷ []) × (next_number b n ≡ suc n))
unfolding command_of next_number
command-cases (sent id c by) n = inr (c, refl, refl)
command-cases (session_open o) n = inl (refl, refl)
command-cases session_close n = inl (refl, refl)
command-cases session_died n = inl (refl, refl)
command-cases (result behind id a) n = inl (refl, refl)
command-cases (timeout id seconds) n = inl (refl, refl)
command-cases (boundary commits failed by) n = inl (refl, refl)
command-cases interrupt n = inl (refl, refl)
command-cases (stderr line) n = inl (refl, refl)
command-cases (owner_changed was now pending) n = inl (refl, refl)
command-cases (policy_changed p) n = inl (refl, refl)
command-cases other n = inl (refl, refl)

pub numbers-commands_from :
    (n : ℕ) (ls : List Line)
    → numbers (commands_from n ls) ≡ count_from n (length (commands_from n ls))
unfolding commands_from numbers count_from
numbers-commands_from n [] = refl
numbers-commands_from n (l ∷ ls) =
    let Fine : Numbered → Type 0 = λ cs. numbers cs ≡ count_from n (length cs) in
    elim (command-cases l.body n) [
      | inl (a, k) ↦
          subst (λ cs. Fine (cs ++ commands_from (next_number l.body n) ls)) (sym a)
            (subst (λ m. Fine (commands_from m ls)) (sym k) (numbers-commands_from n ls))
      | inr (c, a, k) ↦
          subst (λ cs. Fine (cs ++ commands_from (next_number l.body n) ls)) (sym a)
            (subst (λ m. Fine ((suc n, c) ∷ commands_from m ls)) (sym k)
              (ap (λ rest. suc n ∷ rest) (numbers-commands_from (suc n) ls)))
    ]

commands-note_body :
    (ts : Option String) (b : Body) (m : Summary) (n : ℕ)
    → (note_body ts b m).commands ≡ m.commands + length (command_of n b)
unfolding note_body command_of
commands-note_body ts b m n = ground arith

pub commands-summarise :
    (ls : List Line) (m : Summary) (n : ℕ)
    → (summarise ls m).commands ≡ m.commands + length (commands_from n ls)
unfolding summarise commands_from
commands-summarise [] m n = omega arith
commands-summarise (l ∷ ls) m n =
    let next : Summary = note_body l.ts l.body (note_times l m) in
    let long = length-append (command_of n l.body) (commands_from (next_number l.body n) ls) in
    omega (
      arith,
      long,
      commands-summarise ls next (next_number l.body n),
      commands-note_body l.ts l.body (note_times l m) n,
    )
