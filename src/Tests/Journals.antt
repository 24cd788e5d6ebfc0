-- ===== src/Tests/Journals.antt =====
-- Journals on which the theorems are applied.
use odoo_sheller.Common.{
  ℕ, zero, suc, String, ◌≡◌, refl, true, false, Option, none, some, List, [], ◌∷◌, ◌++◌, arith,
  all_chars,
}
use odoo_sheller.Journal.{
  Actor, Problem, plain, Answer, exec, run_test, Body, sent, result, timeout, boundary, stderr,
  Line, session_meta,
}
use odoo_sheller.Journal.Feed.{feed_from_records}
use odoo_sheller.Journal.Following.{replay}
use odoo_sheller.Journal.Following.Whole.{feed_from_records-replay}
use odoo_sheller.Journal.Numbers.{headings, cells, count_from, numbers}
use odoo_sheller.Journal.Numbers.Agreeing.{headings-cells}
use odoo_sheller.Journal.Markdown.{transcript_blocks}
use odoo_sheller.Journal.Files.{journal_path, find_journal}
use odoo_sheller.Journal.Listing.{Raw}
use odoo_sheller.Journal.Listing.Runs.{
  Operation, written, listed, deleted, run, run_fresh, run-run_fresh,
}
use odoo_sheller.Registry.Ids.{
  is_digits, is_number_shaped, new_session_id, is_hex, new_session_id-find_journal,
}

abbrev small_answer : Option Problem → Answer
small_answer e = record {
  stdout = some "3\n";
  value = none;
  tests = none;
  hoot = none;
  error = e;
  duration = "0.012";
}

abbrev alice : Option Actor
alice = some (record { kind = some "human"; label = some "alice" })

abbrev said : Body → Line
said b = record { ts = some "2024-05-01T10:00:00+00:00"; body = b }

-- A command that timed out and answered late, a log line between, and a test run that failed.
abbrev small_journal : List Line
small_journal =
    said (sent (some 1) (exec "print(1 + 2)") alice)
    ∷ said (timeout (some 1) (some "5"))
    ∷ said (stderr "slow")
    ∷ said (
        sent (some 2)
          (run_test (record {
            module_name = some "sale";
            test_class = none;
            test_method = none;
            params = none;
          }))
          alice)
    ∷ said (result true (some 1) (small_answer none))
    ∷ said (result false (some 2) (small_answer (some (plain "failed"))))
    ∷ said (boundary true false alice)
    ∷ []

feed_from_records-replay_example :
    (feed_from_records small_journal true none).1 ≡ replay 0 small_journal
feed_from_records-replay_example = feed_from_records-replay small_journal true none

no_time : String → String → Option ℕ
no_time a b = none

headings-cells_example :
    (headings (transcript_blocks false small_journal)
      ≡ cells (feed_from_records small_journal true none).1)
    × (numbers (cells (feed_from_records small_journal true none).1)
        ≡ count_from 0 (session_meta no_time none small_journal).commands)
headings-cells_example = headings-cells false true none no_time none small_journal

-- The first draw reads as a number.
abbrev small_draws : ℕ → String
small_draws zero = "27432710e366"
small_draws (suc n) = "a1b2c3d4e5f6"

draws_are_hex : (n : ℕ) → all_chars is_hex (small_draws n) ≡ true
unfolding is_hex
draws_are_hex zero = refl
draws_are_hex (suc n) = refl

new_session_id-find_journal_example :
    (id : String) × (new_session_id 2 small_draws 0 ≡ some id)
    × (is_number_shaped id ≡ false)
    × (find_journal ([] ++ journal_path id "shop" (some "main") "2024-05-01T10-00-00" ∷ []) id
        ≡ some (journal_path id "shop" (some "main") "2024-05-01T10-00-00"))
unfolding is_number_shaped is_digits
new_session_id-find_journal_example =
    new_session_id-find_journal 2 1 small_draws "shop" (some "main") "2024-05-01T10-00-00" [] []
      draws_are_hex refl (omega arith) (λ n le. tt)

abbrev small_raw : Raw
small_raw = record { bytes = 40; says = some (said (boundary true false alice)) }

abbrev small_operations : List Operation
small_operations =
    written "2024-a1b2c3.jsonl" 5 small_raw
    ∷ listed ("2024-a1b2c3.jsonl" ∷ [])
    ∷ written "2024-a1b2c3.jsonl" 5 small_raw
    ∷ listed ("2024-a1b2c3.jsonl" ∷ [])
    ∷ deleted ("2024-a1b2c3.jsonl" ∷ []) "a1b2c3"
    ∷ listed ("2024-a1b2c3.jsonl" ∷ [])
    ∷ []

run-run_fresh_example :
    run no_time small_operations (λ p. none) [] ≡ run_fresh no_time small_operations (λ p. none)
run-run_fresh_example = run-run_fresh no_time small_operations (λ p. none)
