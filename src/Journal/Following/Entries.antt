-- ===== src/Journal/Following/Entries.antt =====
-- The feed of odoo_sheller/journal.py against what each command's later lines say.
use odoo_sheller.Common.{
  ℕ, zero, suc, ◌+◌, ◌≤◌, ◌<◌, String, ◌≡◌, refl, sym, ap, ◌∙◌, subst, ◌≢◌, inl, inr, true, false,
  Option, none, some, List, [], ◌∷◌, ◌++◌, arith, if◌then◌else◌, ◌==◌, nat_beq_iff, string_eq,
  nat_eq, Bool-cases, length, lookup,
}
use odoo_sheller.Journal.{Actor, Command, sent, Line}
use odoo_sheller.Journal.Feed.{
  Cell, FeedEntry, cell, ended, handed, policy, id_beq_iff, id_eq, in_cell, change_at,
}
use odoo_sheller.Journal.Following.{touched, resent, settled}
use odoo_sheller.Journal.Following.Places.{
  is_at, Pending, follow_one, follow, IsNamed, Agree, KeepsId,
}

-- A line that says nothing to a command.
unfoldable pub Deaf : Line → Type 0
Deaf l = (id : Option ℕ) (ls : List Line) (c : Cell) → settled id (l ∷ ls) c ≡ settled id ls c

pub follow-Deaf :
    (p : Pending) (i : ℕ) (l : Line) (ls : List Line) (es : List FeedEntry)
    → Deaf l
    → follow p i ls es ≡ follow p i (l ∷ ls) es
unfolding follow follow_one Deaf
follow-Deaf p i l ls [] d = refl
follow-Deaf p i l ls (cell c ∷ es) d = rw (d c.id ls c, follow-Deaf p (suc i) l ls es d) refl
follow-Deaf p i l ls (ended commits by ∷ es) d = rw (follow-Deaf p (suc i) l ls es d) refl
follow-Deaf p i l ls (handed was now ∷ es) d = rw (follow-Deaf p (suc i) l ls es d) refl
follow-Deaf p i l ls (policy q ∷ es) d = rw (follow-Deaf p (suc i) l ls es d) refl

pub follow-append :
    (p : Pending) (i : ℕ) (ls : List Line) (es fs : List FeedEntry)
    → follow p i ls (es ++ fs) ≡ follow p i ls es ++ follow p (i + length es) ls fs
unfolding follow
follow-append p i ls [] fs = let same : i ≡ i + 0 = omega arith in ap (λ k. follow p k ls fs) same
follow-append p i ls (e ∷ es) fs =
    let same : suc i + length es ≡ i + suc (length es) = omega arith in
    ap (λ rest. follow_one p i ls e ∷ rest)
      (follow-append p (suc i) ls es fs ∙ ap (λ k. follow p (suc i) ls es ++ follow p k ls fs) same)

-- A line that changes the entry of one id.
unfoldable pub Changes : Option ℕ → (Cell → Cell) → Line → Type 0
Changes id f l =
    (k : Option ℕ) (ls : List Line) (c : Cell)
    → settled k (l ∷ ls) c ≡ settled k ls (if id == k then f c else c)

not_at : (o : Option ℕ) (i : ℕ) → o ≢ some i → is_at o i ≡ false
not_at none i h = refl
not_at (some n) i h = elim (Bool-cases (n == i)) [
  | inl e ↦ absurd (h (ap some ((nat_beq_iff n i).0 e)))
  | inr e ↦ e
]

follow_one-other :
    (p : Pending) (id : Option ℕ) (f : Cell → Cell) (i : ℕ) (l : Line) (ls : List Line)
    (e : FeedEntry)
    → Changes id f l
    → lookup id p ≢ some i
    → follow_one p i ls e ≡ follow_one p i (l ∷ ls) e
unfolding follow_one Changes
follow_one-other p id f i l ls (cell c) h at = elim (Bool-cases (id == c.id)) [
  | inl e ↦
      let same : id ≡ c.id = (id_beq_iff id c.id).0 e in
      rw (not_at (lookup c.id p) i (subst (λ k. lookup k p ≢ some i) same at)) refl
  | inr e ↦
      let heard : settled c.id (l ∷ ls) c ≡ settled c.id ls c =
        h c.id ls c ∙ ap (λ b. settled c.id ls (if b then f c else c)) e in
      ap (λ d. cell (if is_at (lookup c.id p) i then d else c)) (sym heard)
]
follow_one-other p id f i l ls (ended commits by) h at = refl
follow_one-other p id f i l ls (handed was now) h at = refl
follow_one-other p id f i l ls (policy q) h at = refl

-- No place from `i` on is the id's.
pub follow-apart :
    (p : Pending) (id : Option ℕ) (f : Cell → Cell) (i : ℕ) (l : Line) (ls : List Line)
    (es : List FeedEntry)
    → Changes id f l
    → ((k : ℕ) → i ≤ k → lookup id p ≢ some k)
    → follow p i ls es ≡ follow p i (l ∷ ls) es
unfolding follow
follow-apart p id f i l ls [] h at = refl
follow-apart p id f i l ls (e ∷ es) h at =
    ap (λ d. d ∷ follow p (suc i) ls es) (follow_one-other p id f i l ls e h (at i (omega arith)))
    ∙ ap (λ rest. follow_one p i (l ∷ ls) e ∷ rest)
        (follow-apart p id f (suc i) l ls es h (λ k m. at k (omega (arith, m))))

follow_one-named :
    (p : Pending) (id : Option ℕ) (f : Cell → Cell) (i : ℕ) (l : Line) (ls : List Line)
    (e : FeedEntry)
    → KeepsId f
    → Changes id f l
    → IsNamed id e
    → lookup id p ≡ some i
    → follow_one p i ls (in_cell f e) ≡ follow_one p i (l ∷ ls) e
unfolding follow_one KeepsId Changes IsNamed in_cell
follow_one-named p id f i l ls (cell c) k h named at =
    let found : is_at (lookup c.id p) i ≡ true =
      ap (λ x. is_at (lookup x p) i) named ∙ ap (λ o. is_at o i) at ∙ (nat_beq_iff i i).1 refl in
    let heard : settled c.id (l ∷ ls) c ≡ settled c.id ls (f c) =
      h c.id ls c
      ∙ ap (λ b. settled c.id ls (if b then f c else c)) ((id_beq_iff id c.id).1 (sym named)) in
    ap (λ x. cell (if is_at (lookup x p) i then settled x ls (f c) else f c)) (k c)
    ∙ ap (λ b. cell (if b then settled c.id ls (f c) else f c)) found
    ∙ ap cell (sym heard)
    ∙ ap (λ b. cell (if b then settled c.id (l ∷ ls) c else c)) (sym found)
follow_one-named p id f i l ls (ended commits by) k h named at = absurd named
follow_one-named p id f i l ls (handed was now) k h named at = absurd named
follow_one-named p id f i l ls (policy q) k h named at = absurd named

pub follow-change_at :
    (p : Pending) (id : Option ℕ) (f : Cell → Cell) (i n : ℕ) (l : Line) (ls : List Line)
    (es : List FeedEntry)
    → KeepsId f
    → Changes id f l
    → Agree p i es
    → lookup id p ≡ some (i + n)
    → follow p i ls (change_at n f es) ≡ follow p i (l ∷ ls) es
unfolding follow change_at Agree
follow-change_at p id f i n l ls [] k h a at = refl
follow-change_at p id f i zero l ls (e ∷ es) k h (a, t) at =
    let here : lookup id p ≡ some i = at ∙ ap some (omega arith) in
    let apart : (m : ℕ) → suc i ≤ m → lookup id p ≢ some m =
      λ m le eq. ground (arith, le, eq, here) in
    ap (λ d. d ∷ follow p (suc i) ls es) (follow_one-named p id f i l ls e k h (a id here) here)
    ∙ ap (λ rest. follow_one p i (l ∷ ls) e ∷ rest) (follow-apart p id f (suc i) l ls es h apart)
follow-change_at p id f i (suc n) l ls (e ∷ es) k h (a, t) at =
    let apart : lookup id p ≢ some i = λ eq. ground (arith, eq, at) in
    let there : lookup id p ≡ some (suc i + n) = at ∙ ap some (omega arith) in
    ap (λ d. d ∷ follow p (suc i) ls (change_at n f es)) (follow_one-other p id f i l ls e h apart)
    ∙ ap (λ rest. follow_one p i (l ∷ ls) e ∷ rest)
        (follow-change_at p id f (suc i) n l ls es k h t there)

follow_one-sent :
    (p : Pending) (id : Option ℕ) (c : Command) (by : Option Actor) (ts : Option String) (i n : ℕ)
    (ls : List Line) (e : FeedEntry)
    → i < n
    → follow_one ((id, n) ∷ p) i ls e
      ≡ follow_one p i (record { ts = ts; body = sent id c by } ∷ ls) e
unfolding follow_one settled resent touched
follow_one-sent p id c by ts i n ls (cell d) h = elim (Bool-cases (id == d.id)) [
  | inl e ↦ ground arith
  | inr e ↦ rw e refl
]
follow_one-sent p id c by ts i n ls (ended commits was) h = refl
follow_one-sent p id c by ts i n ls (handed was now) h = refl
follow_one-sent p id c by ts i n ls (policy q) h = refl

pub follow-sent :
    (p : Pending) (id : Option ℕ) (c : Command) (by : Option Actor) (ts : Option String) (i n : ℕ)
    (ls : List Line) (es : List FeedEntry)
    → i + length es ≤ n
    → follow ((id, n) ∷ p) i ls es ≡ follow p i (record { ts = ts; body = sent id c by } ∷ ls) es
unfolding follow
follow-sent p id c by ts i n ls [] h = refl
follow-sent p id c by ts i n ls (e ∷ es) h =
    let l : Line = record { ts = ts; body = sent id c by } in
    let head = follow_one-sent p id c by ts i n ls e (omega (arith, h)) in
    ap (λ d. d ∷ follow ((id, n) ∷ p) (suc i) ls es) head
    ∙ ap (λ rest. follow_one p i (l ∷ ls) e ∷ rest)
        (follow-sent p id c by ts (suc i) n ls es (omega (arith, h)))
