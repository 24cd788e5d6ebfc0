-- ===== src/TestLog/Result/Told.antt =====
-- A browser suite that Odoo says it skipped is told as such, in odoo_sheller/session.py.
use odoo_sheller.TestLog.Filters.{start_run}
use odoo_sheller.TestLog.Result.{Frame, skip_of, result_of_run}
use odoo_sheller.JsTests.{ends_with, reasons, skip_reason}
use odoo_sheller.JsTests.Closed.{IsReason}
use odoo_sheller.Common.{
  String, ◌≡◌, refl, sym, ap, ◌∙◌, subst, ◌≢◌, ◌⊎◌, inl, inr, Bool, true, false, not, Option, none,
  some, List, [], ◌∷◌, ◌++◌, arith, eq_iff, ◌==◌, string_eq, nat_eq, Bool-cases, Option-cases,
  is_some, contains,
}
use odoo_sheller.TestLog.{TestKind, Python, parse_test_line, Reading}
use odoo_sheller.TestLog.Reader.{note_hoot_line, note_skip, note_test_line, read_all}
use odoo_sheller.TestLog.Result.Honest.{
  KnownSkip, note_hoot_line-run, note_failure-run, count_progress-run, noted_run, note_skip-run,
  note_test_line-test_module, read_all-KnownSkip, skip_of-IsReason, skipped_lem, skipped-no_pass,
  own_answer,
}

-- A reason is known.
abbrev pub told : Option (Option String × Option String) → Bool
told none = false
told (some (params, none)) = false
told (some (params, some reason)) = not (reason == "")

-- What Odoo says of a browser suite that it cannot run.
abbrev pub Unrunnable : String → Type 0
Unrunnable said =
    (ends_with said " : Chrome executable not found" ≡ true)
    ⊎ (ends_with said " : websocket-client module is not installed" ≡ true)

reason_is_told :
    (rstrip : String → String) (line : String) (params : Option String)
    → Unrunnable (rstrip line)
    → told (some (params, skip_reason rstrip line)) ≡ true
unfolding skip_reason
reason_is_told rstrip line params (inl chrome) = rw chrome refl
reason_is_told rstrip line params (inr websocket) =
    elim (Bool-cases (ends_with (rstrip line) " : Chrome executable not found")) [
      | inl e ↦ rw e refl
      | inr e ↦ rw (e, websocket) refl
    ]

no_empty_reason : (reason : String) → IsReason (some reason) → not (reason == "") ≡ true
unfolding IsReason
no_empty_reason reason h = elim (Bool-cases (reason == "")) [
  | inl e ↦
      let none_of : false ≡ true =
        subst (λ r. contains reasons r ≡ true) ((eq_iff reason "").0 e) h in
      absurd (ground (arith, none_of))
  | inr e ↦ rw e refl
]

skip_of-told :
    (r : Option (Option String × Option String)) → told r ≡ true → is_some (skip_of true r) ≡ true
unfolding skip_of
skip_of-told none h = absurd (cc)
skip_of-told (some (params, none)) h = absurd (cc)
skip_of-told (some (params, some reason)) h = ground (arith, h)

skip_of-other : (r : Option (Option String × Option String)) → skip_of false r ≡ none
unfolding skip_of
skip_of-other none = refl
skip_of-other (some (params, none)) = refl
skip_of-other (some (params, some reason)) = refl

module _ (py : Python) where
  noted_run-told :
      (kind : TestKind) (line : String) (r : Option (Option String × Option String))
      → told r ≡ true
      → told (noted_run py kind line r) ≡ true
  unfolding noted_run
  noted_run-told kind line none h = h
  noted_run-told kind line (some (params, none)) h = absurd (cc)
  noted_run-told kind line (some (params, some reason)) h = ground (arith, h)

  noted_run-skip :
      (line : String) (r : Option (Option String × Option String))
      → is_some r ≡ true
      → KnownSkip r
      → Unrunnable (py.rstrip line)
      → told (noted_run py TestKind.skip line r) ≡ true
  unfolding noted_run KnownSkip
  noted_run-skip line none run k u = absurd (cc)
  noted_run-skip line (some (params, none)) run k u = reason_is_told py.rstrip line params u
  noted_run-skip line (some (params, some reason)) run k u = no_empty_reason reason k

  noted_run-is_some :
      (kind : TestKind) (line : String) (r : Option (Option String × Option String))
      → is_some (noted_run py kind line r) ≡ is_some r
  unfolding noted_run
  noted_run-is_some kind line none = refl
  noted_run-is_some kind line (some (params, js_skip)) = ground arith

  -- A line that is a test's is noted; any other leaves the run as it is.
  noted_line :
      (line : String) (s : Reading)
      → is_some s.test_module ≡ true
      → (note_test_line py line s).run ≡ (elim (parse_test_line py line) [
        | none ↦ s.run
        | some (kind, description) ↦ noted_run py kind line s.run
      ])
  unfolding note_test_line
  noted_line line s reads =
      let t = note_hoot_line py line s in
      let heard = note_hoot_line-run py line s in
      elim (Option-cases (parse_test_line py line)) [
        | inl e ↦ rw (reads, e) heard
        | inr ((kind, description), e) ↦
            rw (reads, e)
              (count_progress-run py kind description _
                ∙ note_failure-run py kind description (note_skip py kind line t)
                ∙ note_skip-run py kind line t
                ∙ ap (noted_run py kind line) heard)
      ]

  -- The session reads a run's log.
  abbrev pub Reads : Reading → Type 0
  Reads s = (is_some s.test_module ≡ true) × (is_some s.run ≡ true)

  note_test_line-Reads : (line : String) (s : Reading) → Reads s → Reads (note_test_line py line s)
  note_test_line-Reads line s (reads, runs) = (
    ap is_some (note_test_line-test_module py line s) ∙ reads,
    ap is_some (noted_line line s reads) ∙ (elim (Option-cases (parse_test_line py line)) [
      | inl e ↦ rw e runs
      | inr ((kind, description), e) ↦ rw e (noted_run-is_some kind line s.run ∙ runs)
    ]),
  )

  note_test_line-told :
      (line : String) (s : Reading)
      → is_some s.test_module ≡ true
      → told s.run ≡ true
      → told (note_test_line py line s).run ≡ true
  note_test_line-told line s reads h =
      ap told (noted_line line s reads) ∙ (elim (Option-cases (parse_test_line py line)) [
        | inl e ↦ rw e h
        | inr ((kind, description), e) ↦ rw e (noted_run-told kind line s.run h)
      ])

  read_all-told :
      (lines : List String) (s : Reading)
      → Reads s
      → told s.run ≡ true
      → told (read_all py lines s).run ≡ true
  unfolding read_all
  read_all-told [] s r h = h
  read_all-told (line ∷ lines) s r h =
      read_all-told lines (note_test_line py line s) (note_test_line-Reads line s r)
        (note_test_line-told line s r.0 h)

  skip_is_told :
      (before after : List String) (line description : String) (s : Reading)
      → Reads s
      → KnownSkip s.run
      → parse_test_line py line ≡ some (TestKind.skip, description)
      → Unrunnable (py.rstrip line)
      → told (read_all py (before ++ line ∷ after) s).run ≡ true
  unfolding read_all
  skip_is_told [] after line description s r k e u =
      read_all-told after (note_test_line py line s) (note_test_line-Reads line s r)
        (ap told (noted_line line s r.0) ∙ rw e (noted_run-skip line s.run r.1 k u))
  skip_is_told (other ∷ before) after line description s r k e u =
      skip_is_told before after line description (note_test_line py other s)
        (note_test_line-Reads other s r) (unfold read_all in read_all-KnownSkip py (other ∷ []) s k)
        e u

  -- If anywhere in the log of a run Odoo says of a test that it was skipped for want of Chrome or of
  -- the websocket client, then the answer to a run that asked for a browser suite says that it was
  -- skipped, with a reason of the closed list, has an error, and is no success; and the answer to any
  -- other run has the bootstrap's own success and error, and says nothing of a skip.
  pub result_of_run-skipped :
      (f : Frame) (module_name : String) (params : Option String) (has_pid : Bool)
      (before after : List String) (line description : String)
      → parse_test_line py line ≡ some (TestKind.skip, description)
      → Unrunnable (py.rstrip line)
      → let s = read_all py (before ++ line ∷ after) (start_run py module_name params has_pid) in
        let asked = result_of_run py true f s in
        let other = result_of_run py false f s in
        (is_some asked.skipped ≡ true)
        × IsReason asked.skipped
        × (is_some asked.error ≡ true)
        × (asked.success ≢ some true)
        × (other.success ≡ f.success)
        × (other.error ≡ f.error)
        × (other.skipped ≡ none)
  result_of_run-skipped f module_name params has_pid before after line description e u =
      let first = start_run py module_name params has_pid in
      let lines = before ++ line ∷ after in
      let s = read_all py lines first in
      let known : KnownSkip first.run = unfold KnownSkip start_run IsReason in tt in
      let reads : Reads first = unfold start_run in (refl, refl) in
      let there = skip_is_told before after line description first reads known e u in
      let skipped : is_some (result_of_run py true f s).skipped ≡ true =
        ap is_some (skipped_lem py true f s) ∙ skip_of-told s.run there in
      let (failed, no_pass) = skipped-no_pass py true f s skipped in
      let unasked : (result_of_run py false f s).skipped ≡ none =
        skipped_lem py false f s ∙ skip_of-other s.run in
      let (success, error) = own_answer py false f s unasked in
      (
        skipped,
        subst IsReason (sym (skipped_lem py true f s))
            (skip_of-IsReason true s.run (read_all-KnownSkip py lines first known)),
        failed,
        no_pass,
        success,
        error,
        unasked,
      )
