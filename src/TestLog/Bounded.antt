-- ===== src/TestLog/Bounded.antt =====
-- What odoo_sheller/session.py keeps of a test run's log stays small, and names nothing twice.
mod Lines
pub mod Heard
use odoo_sheller.Common.{
  ℕ, ◌≤◌, ◌<◌, String, ◌≡◌, refl, sym, ap, ◌∙◌, subst, inl, inr, false, ◌||◌, Option, none, some,
  List, [], ◌∷◌, ◌++◌, arith, eq_iff, ltb, ◌==◌, string_eq, nat_eq, Bool-cases, length, All,
  All-append, contains, Apart, length-append, join, text_length, take_text, length-take_text,
  length-text_append,
}
use odoo_sheller.TestLog.{Python, hoot_reason_chars, hoot_reasons, Hoot, Reading}
use odoo_sheller.TestLog.Reader.{put_key, keys, add_once, clipped, file_reason, end_hoot_reason}

contains-append :
    (xs : List String) (a x : String) → contains (xs ++ a ∷ []) x ≡ (contains xs x || x == a)
contains-append [] a x = ground arith
contains-append (y ∷ xs) a x = ground (arith, contains-append xs a x)

equal_sym : (x y : String) → (x == y) ≡ false → (y == x) ≡ false
equal_sym x y h = elim (Bool-cases (y == x)) [
  | inl e ↦ absurd (ground (arith, h, (eq_iff x y).1 (sym ((eq_iff y x).0 e))))
  | inr e ↦ e
]

Apart-append :
    (xs : List String) (a : String) → contains xs a ≡ false → Apart xs → Apart (xs ++ a ∷ [])
Apart-append [] a h k = (refl, tt)
Apart-append (x ∷ xs) a h (k, ks) =
    let here : (a == x) ≡ false = ground (arith, h) in
    let rest : contains xs a ≡ false = ground (arith, h) in
    (contains-append xs a x ∙ ground (arith, k, equal_sym a x here), Apart-append xs a rest ks)

pub Apart-add_once : (xs : List String) (a : String) → Apart xs → Apart (add_once a xs)
Apart-add_once xs a k = elim (Bool-cases (contains xs a)) [
  | inl e ↦ rw e k
  | inr e ↦ rw e (Apart-append xs a e k)
]

-- A new key is put at the end.
put_key-new :
    (k v : String) (m : List (String × String))
    → contains (keys m) k ≡ false
    → put_key k v m ≡ m ++ (k, v) ∷ []
put_key-new k v [] h = refl
put_key-new k v ((j, u) ∷ m) h =
    let apart : (k == j) ≡ false = ground (arith, h) in
    let rest : contains (keys m) k ≡ false = ground (arith, h) in
    rw (equal_sym k j apart) (ap (λ r. (j, u) ∷ r) (put_key-new k v m rest))

keys-append :
    (m : List (String × String)) (k v : String) → keys (m ++ (k, v) ∷ []) ≡ keys m ++ k ∷ []
keys-append [] k v = refl
keys-append ((j, u) ∷ m) k v = ap (λ r. j ∷ r) (keys-append m k v)

-- The longest reason: the clip and the word that says so.
abbrev pub reason_limit : ℕ
reason_limit = 810

abbrev pub IsShort : String × String → Type 0
IsShort r = text_length r.1 ≤ reason_limit

-- What is kept of Hoot.
unfoldable pub IsSmall : Option Hoot → Type 0
IsSmall none = Unit
IsSmall (some h) =
    Apart h.failed_tests
    × Apart h.unknown_filters
    × Apart (keys h.reasons)
    × (length h.reasons ≤ hoot_reasons)
    × All IsShort h.reasons

-- The test whose reasons are being read has none yet, and there is room for them.
unfoldable pub HasRoom : Option String → Option Hoot → Type 0
HasRoom none h = Unit
HasRoom (some name) none = Unit
HasRoom (some name) (some h) =
    (contains (keys h.reasons) name ≡ false) × (length h.reasons < hoot_reasons)

unfoldable pub IsBounded : Reading → Type 0
IsBounded s =
    IsSmall s.hoot
    × HasRoom s.reason_for s.hoot
    × (s.stopping ≡ false → s.interrupts ≡ [])
    × (length s.interrupts ≤ 1)

module _ (py : Python) (shorter : (t : String) → text_length (py.rstrip t) ≤ text_length t) where
  clipped-short : (text : String) → text_length (clipped py text) ≤ reason_limit
  unfolding clipped
  clipped-short text = elim (Bool-cases (ltb hoot_reason_chars (text_length text))) [
    | inl e ↦
        let cut = take_text hoot_reason_chars text in
        rw e (
          omega (
            arith,
            shorter cut,
            length-take_text hoot_reason_chars text,
            length-text_append (py.rstrip cut) "\n[clipped]",
          ))
    | inr e ↦ rw e (ground (arith, e))
  ]

  file_reason-IsSmall :
      (name : Option String) (text : String) (h : Option Hoot)
      → HasRoom name h
      → IsSmall h
      → IsSmall (file_reason py name text h)
  unfolding file_reason HasRoom IsSmall
  file_reason-IsSmall none text h r k = k
  file_reason-IsSmall (some name) text none r k = tt
  file_reason-IsSmall (some name) text (some h) (free, room) (a, b, c, d, e) =
      elim (Bool-cases (text == "")) [
        | inl empty ↦ rw empty (a, b, c, d, e)
        | inr full ↦
            let added : put_key name (clipped py text) h.reasons
                ≡ h.reasons ++ (name, clipped py text) ∷ [] =
              put_key-new name (clipped py text) h.reasons free in
            let named : Apart (keys (h.reasons ++ (name, clipped py text) ∷ [])) =
              subst Apart (sym (keys-append h.reasons name (clipped py text)))
                (Apart-append (keys h.reasons) name free c) in
            let count = length-append h.reasons ((name, clipped py text) ∷ []) in
            let short : All IsShort (h.reasons ++ (name, clipped py text) ∷ []) =
              All-append IsShort h.reasons _ e (clipped-short text, tt) in
            rw (full, added) (a, b, named, omega (arith, count, room), short)
      ]

  pub end_hoot_reason-IsBounded : (s : Reading) → IsBounded s → IsBounded (end_hoot_reason py s)
  unfolding IsBounded end_hoot_reason HasRoom
  end_hoot_reason-IsBounded s (a, b, c, d) =
      (file_reason-IsSmall s.reason_for (py.strip (join "\n" s.reason)) s.hoot b a, tt, c, d)
