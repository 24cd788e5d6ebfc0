-- ===== src/Mcp/Pages/Stretch.antt =====
-- Where a page of a transcript begins and ends, and how long it is, in odoo_sheller/mcp.py.
use odoo_sheller.Common.{
  ℕ, zero, suc, ◌+◌, ◌-◌, ◌≤◌, ◌<◌, String, ◌≡◌, refl, sym, ap, ◌∙◌, Bool, false, none, some, List,
  [], ◌∷◌, ◌++◌, arith, ltb, length, drop, skip, text_length, length-take_text,
}
use odoo_sheller.Mcp.Pages.{take, fitting, between, asked_stretch, page_text}

pub fitting-le : (limit size : ℕ) (ls : List String) → fitting limit size ls ≤ length ls
unfolding fitting
fitting-le limit size [] = omega arith
fitting-le limit size (l ∷ ls) = ground (arith, fitting-le limit (size + text_length l + 1) ls)

pub length-take {ℓ} : {A : Type ℓ} (n : ℕ) (xs : List A) → length (take n xs) ≤ n
length-take zero xs = omega arith
length-take (suc n) [] = omega arith
length-take (suc n) (x ∷ xs) = omega (arith, length-take n xs)

pub take_all {ℓ} : {A : Type ℓ} (n : ℕ) (xs : List A) → length xs ≤ n → take n xs ≡ xs
take_all zero [] h = refl
take_all zero (x ∷ xs) h = absurd (omega (arith, h))
take_all (suc n) [] h = refl
take_all (suc n) (x ∷ xs) h = ap (λ r. x ∷ r) (take_all n xs (omega (arith, h)))

pub take-append-drop {ℓ} : {A : Type ℓ} (n : ℕ) (xs : List A) → take n xs ++ drop n xs ≡ xs
take-append-drop zero xs = refl
take-append-drop (suc n) [] = refl
take-append-drop (suc n) (x ∷ xs) = ap (λ r. x ∷ r) (take-append-drop n xs)

drop_none {ℓ} : (A : Type ℓ) (n : ℕ) → drop {A = A} n [] ≡ []
drop_none A zero = refl
drop_none A (suc n) = refl

pub drop-drop {ℓ} : {A : Type ℓ} (n m : ℕ) (xs : List A) → drop n (drop m xs) ≡ drop (m + n) xs
drop-drop n zero xs = let e : n ≡ 0 + n = omega arith in ap (λ k. drop k xs) e
drop-drop {A} n (suc m) [] = drop_none A n ∙ sym (drop_none A (suc m + n))
drop-drop n (suc m) (x ∷ xs) =
    let e : suc (m + n) ≡ suc m + n = omega arith in drop-drop n m xs ∙ ap (λ k. drop k (x ∷ xs)) e

-- What stands from one place to another, and what is behind it.
pub between-rest : (a b : ℕ) (xs : List String) → a ≤ b → between a b xs ++ drop b xs ≡ drop a xs
between-rest a b xs h =
    let e : b ≡ a + (b - a) = omega (arith, h) in
    ap (λ r. between a b xs ++ r) (ap (λ k. drop k xs) e ∙ sym (drop-drop (b - a) a xs))
    ∙ take-append-drop (b - a) (drop a xs)

-- A page that is asked for from a line that there is begins there and has that line.
pub asked_stretch-progress :
    (limit n : ℕ) (lines : List String)
    → n < length lines
    → let s = asked_stretch limit lines (some (suc n)) none in
      (s.0 ≡ n) × (n < s.1) × (s.1 ≤ length lines)
unfolding asked_stretch
asked_stretch-progress limit n lines h =
    let total = length lines in
    let stop = n + fitting limit 0 (between n total lines) in
    let few : fitting limit 0 (between n total lines) ≤ total - n =
      omega (
        arith,
        fitting-le limit 0 (between n total lines),
        length-take (total - n) (drop n lines),
      ) in
    (omega arith, ground (arith, few, h), ground (arith, few, h))

pub asked_stretch-end :
    (limit n : ℕ) (lines : List String)
    → length lines ≤ n
    → let s = asked_stretch limit lines (some (suc n)) none in ltb s.0 s.1 ≡ false
unfolding asked_stretch
asked_stretch-end limit n lines h =
    let total = length lines in
    let few : fitting limit 0 (between n total lines) ≤ 0 = omega (
      arith,
      fitting-le limit 0 (between n total lines),
      length-take (total - n) (drop n lines),
      h,
    ) in
    ground (arith, few, h)

length-skip : (n : ℕ) (s : String) → text_length (skip n s) ≡ text_length s - n
length-skip zero s = omega arith
length-skip (suc n) String.[] = omega arith
length-skip (suc n) (String.◌∷◌ c s) = omega (arith, length-skip n s)

pub page_text-le :
    (limit : ℕ) (asked : Bool) (t : String) → text_length (page_text limit asked t) ≤ limit
unfolding page_text
page_text-le limit asked t =
    ground (arith, length-take_text limit t, length-skip (text_length t - limit) t)
