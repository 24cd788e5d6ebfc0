-- ===== src/Tests/Shells.antt =====
-- A small Odoo and the lines that a daemon sends it, on which the theorems are applied.
use odoo_sheller.Common.{
  ℕ, ◌+◌, String, ◌≡◌, refl, true, false, none, some, List, [], ◌∷◌, map, arith, if◌then◌else◌,
  ◌==◌, string_eq, nat_eq,
}
use odoo_sheller.Bootstrap.{
  Outcome, exec, run_test, rollback, close, Signals, Line, garbage, frame, keyboard_interrupt,
  result, bye, Odoo,
}
use odoo_sheller.Bootstrap.Serving.{label, called_for, Renders, serve-answers}
use odoo_sheller.Bootstrap.Loop.{serve}

-- Work of the open transaction, what is committed, and what was printed.
record Shop : Type 0 where
  pending : ℕ
  saved : ℕ
  out : String

abbrev done : {A : Type 0} → A → Shop → Outcome Shop A
done a w = record { world = w; error = none; value = some a }

-- Every cell adds one to the open transaction; a cell without text fails.
abbrev small_odoo : Odoo Shop
small_odoo = record {
  capture = λ w. record w { out = "" };
  printed = λ w. w.out;
  run_code = λ source w.
      if source == ""
      then record { world = w; error = some keyboard_interrupt; value = none }
      else done "1" (record w { pending = w.pending + 1; out = "one" });
  run_tests = λ tags m w. record { world = w; error = none; value = none };
  flush = λ w. done tt w;
  invalidate = λ w. done tt w;
  cr_commit = λ w. done tt (record w { saved = w.saved + w.pending; pending = 0 });
  cr_rollback = λ w. done tt (record w { pending = 0 });
  encodes = λ a. true;
}

abbrev no_signal : Signals
no_signal = record {
  reading = false;
  ending = false;
  catching = false;
  settling = false;
  sending = false;
}

-- An interrupt at every place but one.
abbrev most_signals : Signals
most_signals = record {
  reading = true;
  ending = true;
  catching = true;
  settling = false;
  sending = true;
}

abbrev small_commands : List (Line × Signals)
small_commands =
    (frame (some 1) (exec "x"), no_signal)
    ∷ (garbage, most_signals)
    ∷ (frame (some 2) (exec "x"), most_signals)
    ∷ (frame (some 3) (run_test "sale" "" none none), no_signal)
    ∷ (frame (some 4) rollback, most_signals)
    ∷ (frame (some 5) close, no_signal)
    ∷ (frame (some 6) (exec "x"), no_signal)
    ∷ []

abbrev small_shop : Shop
small_shop = record { pending = 0; saved = 7; out = "" }

small_odoo-Renders : Renders small_odoo
small_odoo-Renders = record {
  by_code = λ source w. ground arith;
  by_tests = λ tags m w. refl;
  by_flush = λ w. refl;
  by_invalidate = λ w. refl;
  by_commit = λ w. refl;
  by_rollback = λ w. refl;
  written = λ a. refl;
}

serve-answers_example :
    map label (serve small_odoo small_commands false small_shop).0
    ≡ (result, some 1) ∷ (result, some 2) ∷ (result, some 3) ∷ (result, some 4) ∷ (bye, some 5) ∷ []
unfolding called_for
serve-answers_example =
    serve-answers small_odoo small_commands small_shop small_odoo-Renders
      (refl, (refl, (refl, (refl, (refl, (refl, (refl, tt)))))))
