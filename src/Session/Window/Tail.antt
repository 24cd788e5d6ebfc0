-- ===== src/Session/Window/Tail.antt =====
-- What a window of odoo_sheller/session.py holds once a command has logged its lines.
use odoo_sheller.Common.{
  ℕ, zero, suc, ◌+◌, ◌-◌, ◌≤◌, String, ◌≡◌, refl, sym, ap, ◌∙◌, List, [], ◌∷◌, ◌++◌, arith, ltb,
  length, drop, length-append, length-drop, append-nil, append_assoc,
}
use odoo_sheller.Session.Window.{Window, bounded, empty_window, append_line, truncated}

-- The lines are appended one after another.
unfoldable pub append_all : List String → Window → Window
append_all [] w = w
append_all (line ∷ lines) w = append_all lines (append_line line w)

drop-nil : (n : ℕ) → drop {A = String} n [] ≡ []
drop-nil zero = refl
drop-nil (suc n) = refl

drop-drop : (a b : ℕ) (xs : List String) → drop a (drop b xs) ≡ drop (b + a) xs
drop-drop a zero xs = ap (λ n. drop n xs) (omega arith)
drop-drop a (suc b) [] = drop-nil a ∙ sym (drop-nil (suc b + a))
drop-drop a (suc b) (x ∷ xs) =
    let step : suc (b + a) ≡ suc b + a = omega arith in
    drop-drop a b xs ∙ ap (λ n. drop n (x ∷ xs)) step

drop-append :
    (n : ℕ) (xs : List String) (y : String)
    → n ≤ length xs
    → drop n (xs ++ y ∷ []) ≡ drop n xs ++ y ∷ []
drop-append zero xs y h = refl
drop-append (suc n) [] y h = absurd (omega (arith, h))
drop-append (suc n) (x ∷ xs) y h = drop-append n xs y (omega (arith, h))

-- Falling off on the left twice is falling off once.
bounded-bounded :
    (limit : ℕ) (xs : List String) (y : String)
    → bounded limit (bounded limit xs ++ y ∷ []) ≡ bounded limit (xs ++ y ∷ [])
unfolding bounded
bounded-bounded limit xs y =
    let m = length xs - limit in
    let kept : drop m xs ++ y ∷ [] ≡ drop m (xs ++ y ∷ []) =
      sym (drop-append m xs y (omega arith)) in
    let long = length-append xs (y ∷ []) in
    let short : length (drop m (xs ++ y ∷ [])) ≡ length xs + 1 - m =
      length-drop m (xs ++ y ∷ []) ∙ ap (λ n. n - m) (omega (arith, long)) in
    ap (λ zs. drop (length zs - limit) zs) kept
    ∙ drop-drop (length (drop m (xs ++ y ∷ [])) - limit) m (xs ++ y ∷ [])
    ∙ ap (λ n. drop n (xs ++ y ∷ [])) (omega (arith, short, long))

window_after :
    (limit : ℕ) (seen ls : List String) (w : Window)
    → w.limit ≡ limit
    → w.lines ≡ bounded limit seen
    → w.total ≡ length seen
    → ((append_all ls w).lines ≡ bounded limit (seen ++ ls))
      × ((append_all ls w).total ≡ length seen + length ls)
unfolding append_all
window_after limit seen [] w l h t =
    (h ∙ ap (bounded limit) (sym (append-nil seen)), omega (arith, t))
window_after limit seen (x ∷ ls) w l h t =
    let next = append_line x w in
    let long = length-append seen (x ∷ []) in
    let lines : next.lines ≡ bounded limit (seen ++ x ∷ []) =
      unfold append_line in
      ap (λ n. bounded n (w.lines ++ x ∷ [])) l
      ∙ ap (λ zs. bounded limit (zs ++ x ∷ [])) h
      ∙ bounded-bounded limit seen x in
    let total : next.total ≡ length (seen ++ x ∷ []) =
      unfold append_line in omega (arith, long, t) in
    let (a, b) =
      window_after limit (seen ++ x ∷ []) ls next (unfold append_line in l) lines total in
    (a ∙ ap (bounded limit) (append_assoc seen (x ∷ []) ls), omega (arith, b, long))

-- A window that was empty holds the last `limit` of the lines logged into it, in order, counts all
-- of them, and says that it was truncated exactly when there were more than `limit`.
pub append_all-tail :
    (limit : ℕ) (ls : List String)
    → let w = append_all ls (empty_window limit) in
      (w.lines ≡ drop (length ls - limit) ls)
      × (w.total ≡ length ls)
      × (truncated w ≡ ltb limit (length ls))
unfolding empty_window bounded truncated
append_all-tail limit ls =
    let (a, b) =
      window_after limit [] ls (empty_window limit) refl (sym (drop-nil (0 - limit))) refl in
    let kept = length-drop (length ls - limit) ls in
    let held = ap length a in (a, omega (arith, b), ground (arith, b, kept, held))
