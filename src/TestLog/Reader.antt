-- ===== src/TestLog/Reader.antt =====
-- `_note_test_line` of odoo_sheller/session.py and what it calls: one line of a test run's log.
use odoo_sheller.Common.{
  ℕ, suc, ◌+◌, String, Bool, true, false, not, ◌&&◌, ◌||◌, Option, none, some, List, [], ◌∷◌, ◌++◌,
  ltb, leb, if◌then◌else◌, ◌==◌, string_eq, nat_eq, is_some, length, any, contains, lookup,
  text_append, join, text_length, take_text,
}
use odoo_sheller.TestLog.{
  TestKind, start, failure, error, skip, HootLine, running, failed, counts, dropped, Python,
  parse_test_line, parse_hoot_line, rerun_spec, hoot_reason_chars, hoot_reasons, Hoot, no_hoot,
  Failure, Progress, Reading,
}
use odoo_sheller.JsTests.{skip_reason}

abbrev pub the_hoot : Reading → Hoot
the_hoot s = elim s.hoot [ none ↦ no_hoot | some h ↦ h ]

-- `d[key] = value`
abbrev pub put_key : String → String → List (String × String) → List (String × String)
put_key k v [] = (k, v) ∷ []
put_key k v ((j, u) ∷ m) = let rest = put_key k v m in if j == k then (j, v) ∷ m else (j, u) ∷ rest

abbrev pub keys : List (String × String) → List String
keys [] = []
keys ((k, v) ∷ m) = k ∷ keys m

-- `sum(len(kept) + 1 for kept in lines)`
abbrev pub weight : List String → ℕ
weight [] = 0
weight (line ∷ lines) = suc (text_length line) + weight lines

abbrev pub add_once : String → List String → List String
add_once x xs = if contains xs x then xs else xs ++ x ∷ []

module _ (py : Python) where
  -- The reasons, cut behind `HOOT_REASON_CHARS` characters.
  unfoldable pub clipped : String → String
  clipped text =
      if ltb hoot_reason_chars (text_length text)
      then text_append (py.rstrip (take_text hoot_reason_chars text)) "\n[clipped]"
      else text

  unfoldable pub file_reason : Option String → String → Option Hoot → Option Hoot
  file_reason none text h = h
  file_reason (some name) text none = none
  file_reason (some name) text (some h) =
      if text == ""
      then some h
      else some (record h { reasons = put_key name (clipped text) h.reasons })

  -- `_end_hoot_reason`
  unfoldable pub end_hoot_reason : Reading → Reading
  end_hoot_reason s = record s {
    reason_for = none;
    reason = [];
    hoot = file_reason s.reason_for (py.strip (join "\n" s.reason)) s.hoot;
  }

  -- A line that goes on with the reasons of a failed test.
  unfoldable pub keep_reason : String → Reading → Reading
  keep_reason line s =
      if leb (weight s.reason) hoot_reason_chars
      then record s { reason = s.reason ++ line ∷ [] }
      else s

  abbrev pub emit_progress : Progress → Reading → Reading
  emit_progress p s = record s { progress = some p; emitted = s.emitted ++ p ∷ [] }

  unfoldable pub note_running : String → Reading → Reading
  note_running name s = elim s.progress [
    | none ↦ s
    | some p ↦ emit_progress (record p { current = some name }) s
  ]

  unfoldable pub note_failed : String → Hoot → Reading → Reading
  note_failed name h s =
      let noted : Hoot = record h { failed_tests = add_once name h.failed_tests } in
      let t : Reading = record s { hoot = some noted } in
      if not (contains (keys h.reasons) name) && ltb (length h.reasons) hoot_reasons
      then record t { reason_for = some name; reason = [] }
      else t

  -- One summary per browser test; they are added up.
  abbrev pub add_count : ℕ → Option ℕ → Option ℕ
  add_count n none = some n
  add_count n (some m) = some (m + n)

  unfoldable pub note_counts : ℕ → ℕ → Hoot → Reading → Reading
  note_counts n m h s = record s {
    hoot = some (record h { passed = add_count n h.passed; failed = add_count m h.failed });
  }

  -- `_note_dropped_filter`
  unfoldable pub note_dropped_filter : String → Hoot → Reading → Reading
  note_dropped_filter hoot_id h s =
      let unknown : String → Reading = λ name. record s {
        hoot = some (record h { unknown_filters = add_once name h.unknown_filters });
      } in
      elim (lookup hoot_id s.filters) [
        | none ↦ unknown hoot_id
        | some name ↦
            let t : Reading = unknown (if name == "" then hoot_id else name) in
            if s.stopping || not s.has_pid
            then t
            else record t { stopping = true; interrupts = s.interrupts ++ name ∷ [] }
      ]

  unfoldable pub heard : Option HootLine → Reading → Reading
  heard none s = s
  heard (some l) s =
      let h : Hoot = the_hoot s in
      let t : Reading = record s { hoot = some h } in
      elim l [
        | running name ↦ note_running name t
        | failed name ↦ note_failed name h t
        | counts n m ↦ note_counts n m h t
        | dropped id ↦ note_dropped_filter id h t
      ]

  -- `_note_hoot_line`
  unfoldable pub note_hoot_line : String → Reading → Reading
  note_hoot_line line s =
      if is_some s.reason_for
      then (if not (py.is_log_record line)
          then keep_reason line s
          else heard (parse_hoot_line py line) (end_hoot_reason s))
      else heard (parse_hoot_line py line) s

  abbrev pub is_skip : TestKind → Bool
  is_skip skip = true
  is_skip _ = false

  unfoldable pub note_skip : TestKind → String → Reading → Reading
  note_skip kind line s = elim s.run [
    | none ↦ s
    | some (params, js_skip) ↦
        if is_skip kind && not (is_some js_skip)
        then record s { run = some (params, skip_reason py.rstrip line) }
        else s
  ]

  abbrev pub same_text : Option String → Option String → Bool
  same_text none none = true
  same_text (some a) (some b) = a == b
  same_text _ _ = false

  abbrev pub same_failure : Failure → Failure → Bool
  same_failure a b =
      a.test == b.test
      && (if a.is_error then b.is_error else not b.is_error)
      && same_text a.params b.params

  unfoldable pub add_failure : Failure → Reading → Reading
  add_failure f s =
      if any (same_failure f) s.failures then s else record s { failures = s.failures ++ f ∷ [] }

  abbrev run_params : Option (Option String × Option String) → Option String
  run_params none = none
  run_params (some (none, js_skip)) = none
  run_params (some (some p, js_skip)) = if p == "" then none else some p

  unfoldable pub note_failure : TestKind → String → Reading → Reading
  note_failure kind description s = elim s.test_module [
    | none ↦ s
    | some m ↦
        let failed : Bool → Reading = λ is_error.
          if m == ""
          then s
          else add_failure
              (record {
                test = rerun_spec py m description;
                is_error = is_error;
                params = run_params s.run;
              })
              s in
        elim kind [ failure ↦ failed false | error ↦ failed true | _ ↦ s ]
  ]

  unfoldable pub count_progress : TestKind → String → Reading → Reading
  count_progress kind description s = elim s.progress [
    | none ↦ s
    | some p ↦ elim kind [
      | start ↦ emit_progress (record p { started = p.started + 1; current = some description }) s
      | failure ↦ emit_progress (record p { failures = p.failures + 1 }) s
      | error ↦ emit_progress (record p { errors = p.errors + 1 }) s
      | skip ↦ emit_progress (record p { skipped = p.skipped + 1 }) s
    ]
  ]

  -- `_note_test_line`
  unfoldable pub note_test_line : String → Reading → Reading
  note_test_line line s =
      let t = note_hoot_line line s in
      if not (is_some s.test_module) && not (is_some s.progress)
      then s
      else elim (parse_test_line py line) [
        | none ↦ t
        | some (kind, description) ↦
            count_progress kind description (note_failure kind description (note_skip kind line t))
      ]

  -- Every line that `_read_stderr` reads.
  unfoldable pub read_all : List String → Reading → Reading
  read_all [] s = s
  read_all (line ∷ lines) s = read_all lines (note_test_line line s)
