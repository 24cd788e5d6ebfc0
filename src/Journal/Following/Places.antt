-- ===== src/Journal/Following/Places.antt =====
-- Where the pending commands of a feed of odoo_sheller/journal.py stand.
use odoo_sheller.Common.{
  ℕ, zero, suc, ◌+◌, ◌<◌, ◌≡◌, refl, ◌∙◌, Bool, false, Option, none, some, List, [], ◌∷◌, ◌++◌,
  arith, if◌then◌else◌, ◌==◌, string_eq, nat_eq, length, lookup,
}
use odoo_sheller.Journal.{Answer, Line}
use odoo_sheller.Journal.Feed.{
  Cell, FeedEntry, cell, ended, handed, policy, id_beq_iff, id_eq, take_result, take_timeout,
  in_cell, change_at,
}
use odoo_sheller.Journal.Following.{settled}

abbrev pub is_at : Option ℕ → ℕ → Bool
is_at none i = false
is_at (some n) i = n == i

abbrev pub Pending : Type 0
Pending = List (Option ℕ × ℕ)

-- An entry at place `i`, with what later lines say of it if it is still pending there.
unfoldable pub follow_one : Pending → ℕ → List Line → FeedEntry → FeedEntry
follow_one p i ls (cell c) = cell (if is_at (lookup c.id p) i then settled c.id ls c else c)
follow_one p i ls (ended commits by) = ended commits by
follow_one p i ls (handed was now) = handed was now
follow_one p i ls (policy q) = policy q

unfoldable pub follow : Pending → ℕ → List Line → List FeedEntry → List FeedEntry
follow p i ls [] = []
follow p i ls (e ∷ es) = follow_one p i ls e ∷ follow p (suc i) ls es

unfoldable pub IsNamed : Option ℕ → FeedEntry → Type 0
IsNamed id (cell c) = c.id ≡ id
IsNamed id (ended commits by) = ⊥
IsNamed id (handed was now) = ⊥
IsNamed id (policy q) = ⊥

-- The entry at a pending id's place is that id's.
unfoldable pub Agree : Pending → ℕ → List FeedEntry → Type 0
Agree p i [] = Unit
Agree p i (e ∷ es) = ((id : Option ℕ) → lookup id p ≡ some i → IsNamed id e) × Agree p (suc i) es

unfoldable pub Below : Pending → ℕ → Type 0
Below p n = (id : Option ℕ) (j : ℕ) → lookup id p ≡ some j → j < n

-- A change that leaves the id alone.
unfoldable pub KeepsId : (Cell → Cell) → Type 0
KeepsId f = (c : Cell) → (f c).id ≡ c.id

pub take_result-KeepsId : (late : Bool) (a : Answer) → KeepsId (take_result late a)
unfolding take_result KeepsId
take_result-KeepsId late a c = refl

pub take_timeout-KeepsId : KeepsId take_timeout
unfolding take_timeout KeepsId
take_timeout-KeepsId c = ground arith

pub IsNamed-in_cell :
    (f : Cell → Cell) (id : Option ℕ) (e : FeedEntry)
    → KeepsId f
    → IsNamed id e
    → IsNamed id (in_cell f e)
unfolding IsNamed in_cell KeepsId
IsNamed-in_cell f id (cell c) k h = k c ∙ h
IsNamed-in_cell f id (ended commits by) k h = h
IsNamed-in_cell f id (handed was now) k h = h
IsNamed-in_cell f id (policy q) k h = h

pub Agree-change_at :
    (p : Pending) (i n : ℕ) (f : Cell → Cell) (es : List FeedEntry)
    → KeepsId f
    → Agree p i es
    → Agree p i (change_at n f es)
unfolding Agree change_at
Agree-change_at p i n f [] k h = h
Agree-change_at p i zero f (e ∷ es) k (h, t) = (λ id at. IsNamed-in_cell f id e k (h id at), t)
Agree-change_at p i (suc n) f (e ∷ es) k (h, t) = (h, Agree-change_at p (suc i) n f es k t)

-- Nothing is pending behind the end.
pub Agree-append :
    (p : Pending) (i : ℕ) (es : List FeedEntry) (e : FeedEntry)
    → Below p (i + length es)
    → Agree p i es
    → Agree p i (es ++ e ∷ [])
unfolding Agree Below
Agree-append p i [] e b h = (λ id at. absurd (omega (arith, b id i at)), tt)
Agree-append p i (x ∷ es) e b (h, t) =
    (h, Agree-append p (suc i) es e (λ id j at. omega (arith, b id j at)) t)

pub Agree-sent :
    (p : Pending) (i n : ℕ) (es : List FeedEntry) (c : Cell)
    → i + length es ≡ n
    → Below p n
    → Agree p i es
    → Agree ((c.id, n) ∷ p) i (es ++ cell c ∷ [])
unfolding Agree Below IsNamed
Agree-sent p i n [] c e b h = (λ id at. ground (arith, id_beq_iff c.id id, b id i), tt)
Agree-sent p i n (x ∷ es) c e b (h, t) = (
  (λ id at. h id (ground (arith, id_beq_iff c.id id))),
  Agree-sent p (suc i) n es c (omega (arith, e)) b t,
)
