-- ===== src/TestLog/Result/Honest.antt =====
-- What the log of a run makes of it, and what a skip makes of its answer, in odoo_sheller/session.py.
use odoo_sheller.Common.{
  String, ◌≡◌, refl, sym, ◌∙◌, subst, ◌≢◌, inl, inr, Bool, true, not, ◌&&◌, Option, none, some,
  List, [], ◌∷◌, arith, if◌then◌else◌, Bool-cases, Option-cases, is_some,
}
use odoo_sheller.TestLog.{TestKind, HootLine, Python, parse_test_line, parse_hoot_line, Reading}
use odoo_sheller.TestLog.Reader.{
  end_hoot_reason, keep_reason, note_running, note_failed, note_counts, note_dropped_filter, heard,
  note_hoot_line, is_skip, note_skip, add_failure, note_failure, count_progress, note_test_line,
  read_all,
}
use odoo_sheller.TestLog.Result.{Frame, skip_of, result_of_run}
use odoo_sheller.JsTests.{skip_reason}
use odoo_sheller.JsTests.Closed.{IsReason}

-- The reason of a skip, if one is known, is one of the closed list.
unfoldable pub KnownSkip : Option (Option String × Option String) → Type 0
KnownSkip none = Unit
KnownSkip (some (params, js_skip)) = IsReason js_skip

skip_reason-IsReason :
    (rstrip : String → String) (line : String) → IsReason (skip_reason rstrip line)
unfolding skip_reason IsReason
skip_reason-IsReason rstrip line = ground arith

module _ (py : Python) where
  end_hoot_reason-run : (s : Reading) → (end_hoot_reason py s).run ≡ s.run
  unfolding end_hoot_reason
  end_hoot_reason-run s = refl

  heard-run : (l : Option HootLine) (s : Reading) → (heard py l s).run ≡ s.run
  unfolding heard note_running note_failed note_counts note_dropped_filter
  heard-run l s = ground arith

  pub note_hoot_line-run : (line : String) (s : Reading) → (note_hoot_line py line s).run ≡ s.run
  unfolding note_hoot_line keep_reason
  note_hoot_line-run line s = ground (
    arith,
    heard-run (parse_hoot_line py line) s,
    heard-run (parse_hoot_line py line) (end_hoot_reason py s),
    end_hoot_reason-run s,
  )

  pub note_failure-run :
      (kind : TestKind) (description : String) (s : Reading)
      → (note_failure py kind description s).run ≡ s.run
  unfolding note_failure add_failure
  note_failure-run kind description s = ground arith

  pub count_progress-run :
      (kind : TestKind) (description : String) (s : Reading)
      → (count_progress py kind description s).run ≡ s.run
  unfolding count_progress
  count_progress-run kind description s = ground arith

  -- What a line makes of the run.
  unfoldable pub noted_run :
      TestKind
      → String
      → Option (Option String × Option String)
      → Option (Option String × Option String)
  noted_run kind line none = none
  noted_run kind line (some (params, js_skip)) =
      if is_skip py kind && not (is_some js_skip)
      then some (params, skip_reason py.rstrip line)
      else some (params, js_skip)

  pub note_skip-run :
      (kind : TestKind) (line : String) (s : Reading)
      → (note_skip py kind line s).run ≡ noted_run kind line s.run
  unfolding note_skip noted_run
  note_skip-run kind line s = ground arith

  heard-test_module :
      (l : Option HootLine) (s : Reading) → (heard py l s).test_module ≡ s.test_module
  unfolding heard note_running note_failed note_counts note_dropped_filter
  heard-test_module l s = ground arith

  note_hoot_line-test_module :
      (line : String) (s : Reading) → (note_hoot_line py line s).test_module ≡ s.test_module
  unfolding note_hoot_line keep_reason end_hoot_reason
  note_hoot_line-test_module line s = ground (
    arith,
    heard-test_module (parse_hoot_line py line) s,
    heard-test_module (parse_hoot_line py line) (end_hoot_reason py s),
  )

  note_failure-test_module :
      (kind : TestKind) (description : String) (s : Reading)
      → (note_failure py kind description s).test_module ≡ s.test_module
  unfolding note_failure add_failure
  note_failure-test_module kind description s = ground arith

  count_progress-test_module :
      (kind : TestKind) (description : String) (s : Reading)
      → (count_progress py kind description s).test_module ≡ s.test_module
  unfolding count_progress
  count_progress-test_module kind description s = ground arith

  note_skip-test_module :
      (kind : TestKind) (line : String) (s : Reading)
      → (note_skip py kind line s).test_module ≡ s.test_module
  unfolding note_skip
  note_skip-test_module kind line s = ground arith

  pub note_test_line-test_module :
      (line : String) (s : Reading) → (note_test_line py line s).test_module ≡ s.test_module
  unfolding note_test_line
  note_test_line-test_module line s =
      let t = note_hoot_line py line s in
      let heard = note_hoot_line-test_module line s in
      elim (Bool-cases (not (is_some s.test_module) && not (is_some s.progress))) [
        | inl e ↦ rw e refl
        | inr e ↦ elim (Option-cases (parse_test_line py line)) [
          | inl none_of ↦ rw (e, none_of) heard
          | inr ((kind, description), told_of) ↦
              rw (e, told_of)
                (count_progress-test_module kind description _
                  ∙ note_failure-test_module kind description (note_skip py kind line t)
                  ∙ note_skip-test_module kind line t
                  ∙ heard)
        ]
      ]

  noted_run-KnownSkip :
      (kind : TestKind) (line : String) (r : Option (Option String × Option String))
      → KnownSkip r
      → KnownSkip (noted_run kind line r)
  unfolding noted_run KnownSkip
  noted_run-KnownSkip kind line none k = k
  noted_run-KnownSkip kind line (some (params, js_skip)) k =
      elim (Bool-cases (is_skip py kind && not (is_some js_skip))) [
        | inl e ↦ rw e (skip_reason-IsReason py.rstrip line)
        | inr e ↦ rw e k
      ]

  note_test_line-KnownSkip :
      (line : String) (s : Reading) → KnownSkip s.run → KnownSkip (note_test_line py line s).run
  unfolding note_test_line
  note_test_line-KnownSkip line s k =
      let t = note_hoot_line py line s in
      let heard : KnownSkip t.run = subst KnownSkip (sym (note_hoot_line-run line s)) k in
      elim (Bool-cases (not (is_some s.test_module) && not (is_some s.progress))) [
        | inl e ↦ rw e k
        | inr e ↦ elim (Option-cases (parse_test_line py line)) [
          | inl none_of ↦ rw (e, none_of) heard
          | inr ((kind, description), told) ↦
              let skipped : KnownSkip (note_skip py kind line t).run =
                subst KnownSkip (sym (note_skip-run kind line t))
                  (noted_run-KnownSkip kind line t.run heard) in
              rw (e, told)
                (subst KnownSkip
                  (sym (
                    count_progress-run kind description _
                    ∙ note_failure-run kind description (note_skip py kind line t)))
                  skipped)
        ]
      ]

  pub read_all-KnownSkip :
      (lines : List String) (s : Reading) → KnownSkip s.run → KnownSkip (read_all py lines s).run
  unfolding read_all
  read_all-KnownSkip [] s k = k
  read_all-KnownSkip (line ∷ lines) s k =
      read_all-KnownSkip lines (note_test_line py line s) (note_test_line-KnownSkip line s k)

pub skip_of-IsReason :
    (browser : Bool) (r : Option (Option String × Option String))
    → KnownSkip r
    → IsReason (skip_of browser r)
unfolding skip_of KnownSkip IsReason
skip_of-IsReason browser none k = tt
skip_of-IsReason browser (some (params, none)) k = tt
skip_of-IsReason browser (some (params, some reason)) k = ground (arith, k)

module _ (py : Python) where
  pub skipped_lem :
      (browser : Bool) (f : Frame) (s : Reading)
      → (result_of_run py browser f s).skipped ≡ skip_of browser s.run
  unfolding result_of_run
  skipped_lem browser f s = ground arith

  pub skipped-no_pass :
      (browser : Bool) (f : Frame) (s : Reading)
      → is_some (result_of_run py browser f s).skipped ≡ true
      → (is_some (result_of_run py browser f s).error ≡ true)
        × ((result_of_run py browser f s).success ≢ some true)
  unfolding result_of_run
  skipped-no_pass browser f s h = elim (Option-cases (skip_of browser s.run)) [
    | inl e ↦ absurd (ground (arith, h, e))
    | inr (r, e) ↦ (ground (arith, e), λ pass. ground (arith, e, pass))
  ]

  pub own_answer :
      (browser : Bool) (f : Frame) (s : Reading)
      → (result_of_run py browser f s).skipped ≡ none
      → ((result_of_run py browser f s).success ≡ f.success)
        × ((result_of_run py browser f s).error ≡ f.error)
  unfolding result_of_run
  own_answer browser f s h = (ground (arith, h), ground (arith, h))
