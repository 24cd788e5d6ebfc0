-- ===== src/Common/Texts.antt =====
-- Texts walked character by character.
use Prim.Native.Nat.{ℕ, zero, suc, ◌+◌, ◌-◌, ◌*◌}
use Prim.Native.Char.{code}
use Prim.Native.String
use Prim.Native.String.{String}
use mathlib.Core.Bool.{Bool, true, false, ◌&&◌, ◌||◌}
use mathlib.Core.List.{List, [], ◌∷◌}
use mathlib.Core.Option.{Option, none, some}
use mathlib.Core.Path.{◌≡◌, sym, ap, ◌∙◌}
use text.Mathlib.TextEquality.{Char-path}
use native.Mathlib.Omega.{arith}
use text.Mathlib.TextLemmas.{cons-append, nil-append}
use Prim.Native.Nat.{◌≤◌}
use odoo_sheller.Common.Tests.{leb, ◌==◌, nat_eq, if◌then◌else◌}

-- Every character's code point satisfies `p`.
abbrev pub all_chars : (ℕ → Bool) → String → Bool
all_chars p String.[] = true
all_chars p (String.◌∷◌ c s) = p (code c) && all_chars p s

abbrev pub is_digit : ℕ → Bool
is_digit c = leb b'0' c && leb c b'9'

-- `[A-Za-z0-9]`
abbrev pub is_alnum : ℕ → Bool
is_alnum c = is_digit c || (leb b'A' c && leb c b'Z') || (leb b'a' c && leb c b'z')

-- `text.startswith(prefix)`, over characters
abbrev pub starts_with : String → String → Bool
starts_with s String.[] = true
starts_with String.[] (String.◌∷◌ d t) = false
starts_with (String.◌∷◌ c s) (String.◌∷◌ d t) = code c == code d && starts_with s t

-- `s + t`
abbrev pub text_append : String → String → String
text_append s t = String.◌++◌ s t

-- The parts of an f-string, one after another.
abbrev pub concat : List String → String
concat [] = ""
concat (s ∷ rest) = String.◌++◌ s (concat rest)

-- `sep.join(parts)`
abbrev pub join : String → List String → String
join sep [] = ""
join sep (s ∷ []) = s
join sep (s ∷ t ∷ rest) = String.◌++◌ s (String.◌++◌ sep (join sep (t ∷ rest)))

abbrev pub starts_digit : String → Bool
starts_digit String.[] = false
starts_digit (String.◌∷◌ c s) = is_digit (code c)

-- `sep in text`, for one character
abbrev pub has_char : ℕ → String → Bool
has_char k String.[] = false
has_char k (String.◌∷◌ c s) = code c == k || has_char k s

-- `part in text`
abbrev pub has_part : String → String → Bool
has_part part String.[] = starts_with String.[] part
has_part part (String.◌∷◌ c s) = starts_with (String.◌∷◌ c s) part || has_part part s

-- The text before the first `k`, and the text behind it if there is one.
abbrev pub cut_from : ℕ → String → String × Option String
cut_from k String.[] = ("", none)
cut_from k (String.◌∷◌ c s) =
    let later = cut_from k s in
    if code c == k then ("", some s) else (String.◌∷◌ c later.0, later.1)

-- `text.split(sep)`, for one character
abbrev pub split_on : ℕ → String → List String
split_on k String.[] = "" ∷ []
split_on k (String.◌∷◌ c s) =
    let rest = split_on k s in
    if code c == k
    then "" ∷ rest
    else elim rest [ [] ↦ (String.◌∷◌ c "") ∷ [] | w ∷ ws ↦ String.◌∷◌ c w ∷ ws ]

-- `text[n:]`
abbrev pub skip : ℕ → String → String
skip zero s = s
skip (suc n) String.[] = ""
skip (suc n) (String.◌∷◌ c s) = skip n s

abbrev pub text_length : String → ℕ
text_length String.[] = 0
text_length (String.◌∷◌ c s) = suc (text_length s)

-- `int(text)` of ASCII digits
abbrev pub digits_value : ℕ → String → ℕ
digits_value n String.[] = n
digits_value n (String.◌∷◌ c s) = digits_value (n * 10 + (code c - b'0')) s

-- `text[:n]`
abbrev pub take_text : ℕ → String → String
take_text zero s = ""
take_text (suc n) String.[] = ""
take_text (suc n) (String.◌∷◌ c s) = String.◌∷◌ c (take_text n s)

pub length-take_text : (n : ℕ) (s : String) → text_length (take_text n s) ≤ n
length-take_text zero s = omega arith
length-take_text (suc n) String.[] = omega arith
length-take_text (suc n) (String.◌∷◌ c s) = omega (arith, length-take_text n s)

pub length-text_append :
    (s t : String) → text_length (text_append s t) ≡ text_length s + text_length t
length-text_append String.[] t = rw (nil-append t) (omega arith)
length-text_append (String.◌∷◌ c s) t =
    rw (cons-append c s t) (omega (arith, length-text_append s t))

pub length-skip : (n : ℕ) (s : String) → text_length (skip n s) ≡ text_length s - n
length-skip zero s = omega arith
length-skip (suc n) String.[] = omega arith
length-skip (suc n) (String.◌∷◌ c s) = omega (arith, length-skip n s)

-- What stands behind a beginning.
pub starts_with-append :
    (s t : String) → starts_with s t ≡ true → s ≡ text_append t (skip (text_length t) s)
starts_with-append s String.[] h = sym (nil-append s)
starts_with-append String.[] (String.◌∷◌ d t) h = absurd (cc)
starts_with-append (String.◌∷◌ c s) (String.◌∷◌ d t) h =
    let same : c ≡ d = Char-path c d (ground (arith, h)) in
    rw (cons-append d t (skip (text_length t) s)) (
      ap (λ x. String.◌∷◌ x s) same
      ∙ ap (String.◌∷◌ d) (starts_with-append s t (ground (arith, h))))
