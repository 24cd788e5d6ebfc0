-- ===== src/TestLog/Bounded/Heard.antt =====
-- Every line of the log keeps the bounds: `_note_test_line` of odoo_sheller/session.py.
use odoo_sheller.Common.{
  ◌≤◌, String, ◌≡◌, refl, inl, inr, Bool, not, ◌&&◌, Option, none, some, List, [], ◌∷◌, arith, leb,
  Bool-cases, Option-cases, is_some, text_length,
}
use odoo_sheller.TestLog.{
  TestKind, HootLine, running, failed, counts, dropped, Python, parse_test_line, parse_hoot_line,
  hoot_reason_chars, Failure, Reading,
}
use odoo_sheller.TestLog.Reader.{
  the_hoot, weight, end_hoot_reason, keep_reason, note_counts, heard, note_hoot_line, note_skip,
  add_failure, note_failure, count_progress, note_test_line, read_all,
}
use odoo_sheller.TestLog.Bounded.{IsSmall, HasRoom, IsBounded, end_hoot_reason-IsBounded}
use odoo_sheller.TestLog.Filters.{start_run}
use odoo_sheller.TestLog.Bounded.Lines.{
  the_hoot-IsSmall, with_hoot, with_hoot-IsBounded, note_failed-IsBounded, note_running-IsBounded,
  note_dropped_filter-IsBounded,
}

module _ (py : Python) (shorter : (t : String) → text_length (py.rstrip t) ≤ text_length t) where
  heard-IsBounded :
      (l : Option HootLine) (s : Reading)
      → s.reason_for ≡ none
      → IsBounded s
      → IsBounded (heard py l s)
  unfolding heard with_hoot
  heard-IsBounded none s e k = k
  heard-IsBounded (some (running name)) s e k =
      let small = the_hoot-IsSmall py s k in
      note_running-IsBounded py name _ (with_hoot-IsBounded py (the_hoot s) s small e k)
  heard-IsBounded (some (failed name)) s e k =
      let small = the_hoot-IsSmall py s k in
      note_failed-IsBounded py name (the_hoot s) _ small e
        (with_hoot-IsBounded py (the_hoot s) s small e k)
  heard-IsBounded (some (counts n m)) s e k =
      let small = the_hoot-IsSmall py s k in
      unfold note_counts IsBounded HasRoom IsSmall in let (a, b, c, d) = k in (small, rw e tt, c, d)
  heard-IsBounded (some (dropped id)) s e k =
      let small = the_hoot-IsSmall py s k in
      note_dropped_filter-IsBounded py id (the_hoot s) _ small e
        (with_hoot-IsBounded py (the_hoot s) s small e k)

  keep_reason-IsBounded :
      (line : String) (s : Reading) → IsBounded s → IsBounded (keep_reason py line s)
  unfolding keep_reason IsBounded
  keep_reason-IsBounded line s k = elim (Bool-cases (leb (weight s.reason) hoot_reason_chars)) [
    | inl e ↦ rw e k
    | inr e ↦ rw e k
  ]

  note_hoot_line-IsBounded :
      (line : String) (s : Reading) → IsBounded s → IsBounded (note_hoot_line py line s)
  unfolding note_hoot_line
  note_hoot_line-IsBounded line s k = elim (Bool-cases (is_some s.reason_for)) [
    | inl e ↦ elim (Bool-cases (py.is_log_record line)) [
      | inl new ↦
          rw (e, new)
            (heard-IsBounded (parse_hoot_line py line) (end_hoot_reason py s)
              (unfold end_hoot_reason in refl) (end_hoot_reason-IsBounded py shorter s k))
      | inr more ↦ rw (e, more) (keep_reason-IsBounded line s k)
    ]
    | inr e ↦ rw e (heard-IsBounded (parse_hoot_line py line) s (ground (arith, e)) k)
  ]

  note_skip-IsBounded :
      (kind : TestKind) (line : String) (s : Reading)
      → IsBounded s
      → IsBounded (note_skip py kind line s)
  unfolding note_skip IsBounded
  note_skip-IsBounded kind line s k = ground (arith, k)

  add_failure-IsBounded : (f : Failure) (s : Reading) → IsBounded s → IsBounded (add_failure py f s)
  unfolding add_failure IsBounded
  add_failure-IsBounded f s k = ground (arith, k)

  note_failure-IsBounded :
      (kind : TestKind) (description : String) (s : Reading)
      → IsBounded s
      → IsBounded (note_failure py kind description s)
  unfolding note_failure add_failure IsBounded
  note_failure-IsBounded kind description s k = ground (arith, k)

  count_progress-IsBounded :
      (kind : TestKind) (description : String) (s : Reading)
      → IsBounded s
      → IsBounded (count_progress py kind description s)
  unfolding count_progress IsBounded
  count_progress-IsBounded kind description s k = ground (arith, k)

  note_test_line-IsBounded :
      (line : String) (s : Reading) → IsBounded s → IsBounded (note_test_line py line s)
  unfolding note_test_line
  note_test_line-IsBounded line s k =
      let heard = note_hoot_line-IsBounded line s k in
      elim (Bool-cases (not (is_some s.test_module) && not (is_some s.progress))) [
        | inl e ↦ rw e k
        | inr e ↦ elim (Option-cases (parse_test_line py line)) [
          | inl none_of ↦ rw (e, none_of) heard
          | inr ((kind, description), told) ↦
              rw (e, told)
                (count_progress-IsBounded kind description _ (
                  note_failure-IsBounded kind description _
                    (note_skip-IsBounded kind line _ heard)))
        ]
      ]

  read_all-IsBounded :
      (lines : List String) (s : Reading) → IsBounded s → IsBounded (read_all py lines s)
  unfolding read_all
  read_all-IsBounded [] s k = k
  read_all-IsBounded (line ∷ lines) s k =
      read_all-IsBounded lines (note_test_line py line s) (note_test_line-IsBounded line s k)

  -- Whatever a test run logs, in whatever order: of the failed browser tests and of the dropped
  -- filters no one is listed twice, no more than ten failed tests have reasons, each its own and none
  -- longer than 810 characters, and the run is interrupted at most once. `rstrip` is taken not to
  -- make a text longer.
  pub read_log-IsBounded :
      (module_name : String) (params : Option String) (has_pid : Bool) (lines : List String)
      → IsBounded (read_all py lines (start_run py module_name params has_pid))
  read_log-IsBounded module_name params has_pid lines =
      read_all-IsBounded lines _
        (unfold IsBounded start_run IsSmall HasRoom in (tt, tt, (λ e. refl), omega arith))
