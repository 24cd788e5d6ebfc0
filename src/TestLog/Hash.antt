-- ===== src/TestLog/Hash.antt =====
-- `hoot_hash` of odoo_sheller/session.py: the id that Odoo hands Hoot for a filter.
use odoo_sheller.Common.{
  ℕ, zero, suc, ◌+◌, ◌-◌, ◌*◌, ◌/◌, ◌%◌, ◌<◌, code, String, ◌≡◌, refl, ap, ◌∙◌, List, [], ◌∷◌, ◌++◌,
  arith, drop, concat,
}

-- One turn of the loop; the subtraction never falls below 0.
abbrev hash_step : ℕ → ℕ → ℕ
hash_step value c = (value * 32 - value + c) % 4294967296

unfoldable pub hash_value : ℕ → String → ℕ
hash_value value String.[] = value
hash_value value (String.◌∷◌ c s) = hash_value (hash_step value (code c)) s

abbrev hex_digits : List String
hex_digits =
    "0" ∷ "1" ∷ "2" ∷ "3" ∷ "4" ∷ "5" ∷ "6" ∷ "7" ∷ "8" ∷ "9" ∷ "a" ∷ "b" ∷ "c" ∷ "d" ∷ "e" ∷ "f"
    ∷ []

abbrev hex_digit : ℕ → String
hex_digit n = elim (drop n hex_digits) [ [] ↦ "" | d ∷ _ ↦ d ]

-- The last `width` hex digits of a number, the front ones first.
unfoldable pub hex_in : ℕ → ℕ → List String
hex_in zero value = []
hex_in (suc width) value = hex_in width (value / 16) ++ hex_digit (value % 16) ∷ []

-- `f"{value:08x}"`, of a value below `2 ^ 32`
unfoldable pub hoot_hash : String → String
hoot_hash text = concat (hex_in 8 (hash_value 0 text))

-- The polynomial that the hash stands for, without a bound.
unfoldable pub polynomial : ℕ → String → ℕ
polynomial value String.[] = value
polynomial value (String.◌∷◌ c s) = polynomial (value * 31 + code c) s

step-mod : (a c : ℕ) → hash_step (a % 4294967296) c ≡ (a * 31 + c) % 4294967296
step-mod a c = omega arith

hash_value-mod : (a : ℕ) (s : String) → hash_value (a % 4294967296) s ≡ polynomial a s % 4294967296
unfolding hash_value polynomial
hash_value-mod a String.[] = refl
hash_value-mod a (String.◌∷◌ c s) =
    ap (λ n. hash_value n s) (step-mod a (code c)) ∙ hash_value-mod (a * 31 + code c) s

-- Cutting the hash to 32 bits at every character gives the 32 low bits of the whole polynomial in 31
-- over the text's code points, and never loses a bit of its id: the eight hex digits.
pub hash_value-polynomial :
    (s : String) → (hash_value 0 s ≡ polynomial 0 s % 4294967296) × (hash_value 0 s < 4294967296)
hash_value-polynomial s =
    let whole : hash_value 0 s ≡ polynomial 0 s % 4294967296 = hash_value-mod 0 s in
    (whole, omega (arith, whole))
