-- ===== src/Discovery/Facts.antt =====
-- What comes back of the facts that the ssh script of odoo_sheller/discovery.py prints.
use odoo_sheller.Common.{
  code, String, ◌≡◌, refl, ap, ◌∙◌, true, false, Option, none, some, List, [], ◌∷◌, map, arith,
  eq_iff, cons-append, nil-append, if◌then◌else◌, ◌==◌, string_eq, nat_eq, All, lookup, text_append,
  has_char, cut_from,
}
use odoo_sheller.Discovery.{Python}
use odoo_sheller.Discovery.Reading.{put, note_fact, note_facts, facts_of}

-- `emit`: the line that the script prints.
abbrev pub emitted : String × String → String
emitted (key, value) = text_append key (text_append "=" value)

-- The last value that was printed for a key, without the white space round it.
unfoldable pub last_emitted :
    Python → String → List (String × String) → Option String → Option String
last_emitted py key [] before = before
last_emitted py key ((k, v) ∷ rest) before =
    last_emitted py key rest (if k == key then some (py.strip v) else before)

-- A key that Python takes for one, with no equals sign in it.
abbrev pub IsKey : Python → String × String → Type 0
IsKey py (key, value) = (py.is_identifier key ≡ true) × (has_char b'=' key ≡ false)

behind_equals : (value : String) → text_append "=" value ≡ String.◌∷◌ "=" value
behind_equals value = cons-append "=" "" value ∙ ap (λ t. String.◌∷◌ "=" t) (nil-append value)

cut_emitted :
    (key value : String)
    → has_char b'=' key ≡ false
    → cut_from b'=' (text_append key (text_append "=" value)) ≡ (key, some value)
cut_emitted String.[] value clean =
    ap (cut_from b'=') (nil-append (text_append "=" value) ∙ behind_equals value)
cut_emitted (String.◌∷◌ c s) value clean =
    let rest : has_char b'=' s ≡ false = ground (arith, clean) in
    let other : (code c == b'=') ≡ false = ground (arith, clean) in
    rw (cons-append c s (text_append "=" value))
      (rw other (ap (λ p. (String.◌∷◌ c p.0, p.1)) (cut_emitted s value rest)))

lookup-put :
    (key value j : String) (m : List (String × String))
    → lookup j (put key value m) ≡ (if key == j then some value else lookup j m)
lookup-put key value j [] = refl
lookup-put key value j ((i, k) ∷ m) =
    ground (arith, eq_iff i key, eq_iff i j, eq_iff key j, lookup-put key value j m)

note_emitted :
    (py : Python) (key value : String) (facts : List (String × String))
    → IsKey py (key, value)
    → note_fact py (emitted (key, value)) facts ≡ put key (py.strip value) facts
unfolding note_fact
note_emitted py key value facts (word, plain) = ground (arith, word, cut_emitted key value plain)

note_facts-lookup :
    (py : Python) (key : String) (pairs : List (String × String)) (facts : List (String × String))
    → All (IsKey py) pairs
    → lookup key (note_facts py (map emitted pairs) facts)
      ≡ last_emitted py key pairs (lookup key facts)
unfolding note_facts last_emitted
note_facts-lookup py key [] facts clean = refl
note_facts-lookup py key ((k, v) ∷ pairs) facts (is_key, clean) =
    ap (λ f. lookup key (note_facts py (map emitted pairs) f)) (note_emitted py k v facts is_key)
    ∙ note_facts-lookup py key pairs (put k (py.strip v) facts) clean
    ∙ ap (last_emitted py key pairs) (lookup-put k (py.strip v) key facts)

-- What the ssh script prints is what is read back: if a text's lines are those that `emit` printed,
-- of keys that Python takes for identifiers, then each key has the value that was printed last for
-- it, without the white space round it, whatever equals signs the value has; and a key that was not
-- printed has none.
pub facts_of-emitted :
    (py : Python) (out key : String) (pairs : List (String × String))
    → py.splitlines out ≡ map emitted pairs
    → All (IsKey py) pairs
    → lookup key (facts_of py out) ≡ last_emitted py key pairs none
unfolding facts_of
facts_of-emitted py out key pairs lines clean =
    ap (λ ls. lookup key (note_facts py ls [])) lines ∙ note_facts-lookup py key pairs [] clean
