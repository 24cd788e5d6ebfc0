-- ===== src/Session/Window.antt =====
-- `_StderrWindow` of odoo_sheller/session.py: the lines logged while one command ran, on a `deque`
-- with a `maxlen`.
pub mod Tail
use odoo_sheller.Common.{ℕ, ◌+◌, ◌-◌, String, Bool, List, [], ◌∷◌, ◌++◌, ltb, length, drop}

pub record Window : Type 0 where
  pub limit : ℕ
  pub lines : List String
  pub total : ℕ

-- `deque(maxlen=limit).append`: the oldest items fall off on the left.
unfoldable pub bounded {ℓ} : {A : Type ℓ} → ℕ → List A → List A
bounded limit xs = drop (length xs - limit) xs

unfoldable pub empty_window : ℕ → Window
empty_window limit = record { limit = limit; lines = []; total = 0 }

unfoldable pub append_line : String → Window → Window
unfolding bounded
append_line line w = record w {
  lines = bounded w.limit (w.lines ++ line ∷ []);
  total = w.total + 1;
}

unfoldable pub truncated : Window → Bool
truncated w = ltb (length w.lines) w.total
