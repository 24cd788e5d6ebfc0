-- ===== src/Journal/Files/Names.antt =====
-- A journal's file is found again by its name, in odoo_sheller/journal.py.
use odoo_sheller.Common.{
  ℕ, Char, code, String, ◌≡◌, refl, ap, ◌∙◌, subst, ◌≢◌, inl, inr, false, Option, none, some, List,
  [], ◌∷◌, ◌++◌, arith, eq_iff, cons-append, nil-append, text_append-nil, if◌then◌else◌, ◌==◌,
  string_eq, nat_eq, Bool-cases, All, text_append, has_char,
}
use odoo_sheller.Journal.Files.{
  slug, database_part, journal_path, before_last, behind_last, stem, session_id_of, find_journal,
}

before_last-cons :
    (k : ℕ) (c : Char) (s t : String)
    → before_last k s ≡ some t
    → before_last k (String.◌∷◌ c s) ≡ some (String.◌∷◌ c t)
unfolding before_last
before_last-cons k c s t h = ground (arith, h)

behind_last-cons :
    (k : ℕ) (c : Char) (s t : String)
    → behind_last k s ≡ some t
    → behind_last k (String.◌∷◌ c s) ≡ some t
unfolding behind_last
behind_last-cons k c s t h = ground (arith, h)

behind_last-here :
    (k : ℕ) (c : Char) (s : String)
    → behind_last k s ≡ none
    → behind_last k (String.◌∷◌ c s) ≡ (if code c == k then some s else none)
unfolding behind_last
behind_last-here k c s h = ground (arith, h)

before_last-append :
    (k : ℕ) (s t u : String)
    → before_last k t ≡ some u
    → before_last k (text_append s t) ≡ some (text_append s u)
before_last-append k String.[] t u h = rw (nil-append t, nil-append u) h
before_last-append k (String.◌∷◌ c s) t u h =
    rw (cons-append c s t, cons-append c s u)
      (before_last-cons k c _ _ (before_last-append k s t u h))

behind_last-append :
    (k : ℕ) (s t u : String) → behind_last k t ≡ some u → behind_last k (text_append s t) ≡ some u
behind_last-append k String.[] t u h = rw (nil-append t) h
behind_last-append k (String.◌∷◌ c s) t u h =
    rw (cons-append c s t) (behind_last-cons k c _ _ (behind_last-append k s t u h))

behind_last-none : (k : ℕ) (s : String) → has_char k s ≡ false → behind_last k s ≡ none
behind_last-none k String.[] h = unfold behind_last in refl
behind_last-none k (String.◌∷◌ c s) h =
    let apart : (code c == k) ≡ false = ground (arith, h) in
    let rest : has_char k s ≡ false = ground (arith, h) in
    behind_last-here k c s (behind_last-none k s rest) ∙ ground (arith, apart)

behind_last-dash :
    (s : String) → has_char b'-' s ≡ false → behind_last b'-' (text_append "-" s) ≡ some s
behind_last-dash s h =
    let apart : text_append "-" s ≡ String.◌∷◌ "-" s =
      cons-append "-" "" s ∙ ap (λ t. String.◌∷◌ "-" t) (nil-append s) in
    ap (behind_last b'-') apart ∙ behind_last-here b'-' "-" s (behind_last-none b'-' s h)

stem-front :
    (name front suffix : String)
    → before_last b'.' name ≡ some front
    → behind_last b'.' name ≡ some suffix
    → (front == "") ≡ false
    → (suffix == "") ≡ false
    → stem name ≡ front
unfolding stem
stem-front name front suffix a b f s = ground (arith, a, b, f, s)

front-not_empty : (front id : String) → behind_last b'-' front ≡ some id → (front == "") ≡ false
unfolding behind_last
front-not_empty front id h = elim (Bool-cases (front == "")) [
  | inl e ↦
      let empty : front ≡ "" = (eq_iff front "").0 e in
      absurd (ground (arith, subst (λ f. behind_last b'-' f ≡ some id) empty h))
  | inr e ↦ e
]

before_suffix : before_last b'.' ".jsonl" ≡ some ""
unfolding before_last
before_suffix = refl

behind_suffix : behind_last b'.' ".jsonl" ≡ some "jsonl"
unfolding behind_last
behind_suffix = refl

id_behind :
    (name front id : String)
    → stem name ≡ front
    → behind_last b'-' front ≡ some id
    → session_id_of name ≡ id
unfolding session_id_of
id_behind name front id a b =
    let there : behind_last b'-' (stem name) ≡ some id = ap (behind_last b'-') a ∙ b in
    ground (arith, there)

-- The id of a session is read back from the name of its journal, whatever the container and the
-- database are called, if the id has no dash.
pub session_id_of-journal_path :
    (id container : String) (database : Option String) (stamp : String)
    → has_char b'-' id ≡ false
    → session_id_of (journal_path id container database stamp) ≡ id
unfolding journal_path
session_id_of-journal_path id container database stamp h =
    let db : String = database_part database in
    let out : String → String = λ s. text_append stamp (
      text_append "-"
        (text_append (slug container) (text_append "-" (text_append db (text_append "-" s))))) in
    let dotted : before_last b'.' (out (text_append id ".jsonl")) ≡ some (out (text_append id "")) =
      before_last-append b'.' stamp _ _ (
        before_last-append b'.' "-" _ _ (
          before_last-append b'.' (slug container) _ _ (
            before_last-append b'.' "-" _ _ (
              before_last-append b'.' db _ _ (
                before_last-append b'.' "-" _ _
                  (before_last-append b'.' id ".jsonl" "" before_suffix)))))) in
    let suffix : behind_last b'.' (out (text_append id ".jsonl")) ≡ some "jsonl" =
      behind_last-append b'.' stamp _ _ (
        behind_last-append b'.' "-" _ _ (
          behind_last-append b'.' (slug container) _ _ (
            behind_last-append b'.' "-" _ _ (
              behind_last-append b'.' db _ _ (
                behind_last-append b'.' "-" _ _
                  (behind_last-append b'.' id ".jsonl" "jsonl" behind_suffix)))))) in
    let dashed : behind_last b'-' (out id) ≡ some id = behind_last-append b'-' stamp _ _ (
      behind_last-append b'-' "-" _ _ (
        behind_last-append b'-' (slug container) _ _ (
          behind_last-append b'-' "-" _ _
            (behind_last-append b'-' db _ _ (behind_last-dash id h))))) in
    let whole : String = out (text_append id ".jsonl") in
    let front : stem whole ≡ out id =
      stem-front whole (out id) "jsonl" (dotted ∙ ap (λ s. some (out s)) (text_append-nil id))
        suffix (front-not_empty (out id) id dashed) refl in
    id_behind whole (out id) id front dashed

-- The journal of a session is found by the session's id alone, wherever its name stands in the
-- directory, if the id has no dash and no other name in the directory ends in the same id.
pub find_journal-journal_path :
    (id container : String) (database : Option String) (stamp : String) (before after : List String)
    → has_char b'-' id ≡ false
    → All (λ name. session_id_of name ≢ id) before
    → find_journal (before ++ journal_path id container database stamp ∷ after) id
      ≡ some (journal_path id container database stamp)
unfolding find_journal
find_journal-journal_path id container database stamp [] after h apart = ground (
  arith,
  eq_iff (session_id_of (journal_path id container database stamp)) id,
  session_id_of-journal_path id container database stamp h,
)
find_journal-journal_path id container database stamp (name ∷ before) after h (p, apart) = ground (
  arith,
  eq_iff (session_id_of name) id,
  p,
  find_journal-journal_path id container database stamp before after h apart,
)
