-- ===== src/Mcp/Results/Whole.antt =====
-- That nothing is dropped silently from the answers of odoo_sheller/mcp.py, and that a run answers
-- the same later.
use odoo_sheller.Common.{
  ℕ, ◌-◌, ◌≤◌, String, ◌≡◌, refl, sym, ap, ◌∙◌, inl, inr, Bool, true, false, ◌||◌, Option, none,
  some, List, [], ◌∷◌, ◌++◌, arith, ltb, leb, if◌then◌else◌, ◌==◌, string_eq, nat_eq, Bool-cases,
  length, concat, join, text_length, length-take_text, length-skip,
}
use odoo_sheller.Protocol.{given, spec_of}
use odoo_sheller.Mcp.{clip, clip_tail}
use odoo_sheller.Mcp.Results.{
  max_stdout, max_result, Frame, lines_of, exec_answer, RunFrame, test_log, failures_of, run_answer,
}
use odoo_sheller.Mcp.Results.Past.{PastRun, filled, or_empty, history_run}

-- No longer than the limit, if it is there at all.
abbrev pub Within : ℕ → Option String → Type 0
Within limit none = Unit
Within limit (some t) = text_length t ≤ limit

clip-Within : (limit : ℕ) (t : Option String) → Within limit (clip limit t).0
unfolding clip
clip-Within limit none = tt
clip-Within limit (some t) = elim (Bool-cases (leb (text_length t) limit)) [
  | inl short ↦ rw short (ground (arith, short))
  | inr long ↦ rw long (length-take_text limit t)
]

clip-whole : (limit : ℕ) (t : Option String) → (clip limit t).1 ≡ false → (clip limit t).0 ≡ t
unfolding clip
clip-whole limit none e = refl
clip-whole limit (some t) e = ground (arith, e)

clip_tail-whole :
    (limit : ℕ) (t : String) → (clip_tail limit t).1 ≡ false → (clip_tail limit t).0 ≡ t
unfolding clip_tail
clip_tail-whole limit t e = ground (arith, e)

clip_tail-Within : (limit : ℕ) (t : String) → text_length (clip_tail limit t).0 ≤ limit
unfolding clip_tail
clip_tail-Within limit t = elim (Bool-cases (leb (text_length t) limit)) [
  | inl short ↦ rw short (ground (arith, short))
  | inr long ↦ rw long (ground (arith, length-skip (text_length t - limit) t, long))
]

no_lines : (ls : List String) → ltb 0 (length ls) ≡ false → ls ≡ []
no_lines [] h = refl
no_lines (l ∷ ls) h = absurd (ground (arith, h))

exec_answer-silent :
    (with_log : Bool) (r : Frame)
    → let a = exec_answer with_log r in
      a.journal ≡ false
      → (a.stdout ≡ r.stdout)
        × (a.result ≡ r.result)
        × (if with_log
            then a.stderr ≡ some (join "\n" (lines_of r.stderr), r.stderr_truncated)
            else lines_of r.stderr ≡ [])
unfolding exec_answer
exec_answer-silent true r silent =
    let log = join "\n" (lines_of r.stderr) in
    (
      clip-whole max_stdout r.stdout (ground (arith, silent)),
      clip-whole max_result r.result (ground (arith, silent)),
      ap (λ t. some (t, r.stderr_truncated))
          (clip_tail-whole max_stdout log (ground (arith, silent))),
    )
exec_answer-silent false r silent = (
  clip-whole max_stdout r.stdout (ground (arith, silent)),
  clip-whole max_result r.result (ground (arith, silent)),
  no_lines (lines_of r.stderr) (ground (arith, silent)),
)

-- The text of the log, if it was asked for.
abbrev pub log_of : Option (String × Bool) → Option String
log_of none = none
log_of (some l) = some l.0

exec_answer-log :
    (with_log : Bool) (r : Frame) → Within max_stdout (log_of (exec_answer with_log r).stderr)
unfolding exec_answer
exec_answer-log true r = clip_tail-Within max_stdout (join "\n" (lines_of r.stderr))
exec_answer-log false r = tt

-- What `os_exec` answers is within its limits, the log included; and where it does not name the journal, it holds all
-- that the daemon said: the output, the value, and the log if that was asked for. If it was not,
-- then nothing was logged.
pub exec_answer_lem :
    (with_log : Bool) (r : Frame)
    → let a = exec_answer with_log r in
      Within max_stdout a.stdout
      × Within max_result a.result
      × Within max_stdout (log_of a.stderr)
      × (a.journal ≡ false
          → (a.stdout ≡ r.stdout)
            × (a.result ≡ r.result)
            × (if with_log
                then a.stderr ≡ some (join "\n" (lines_of r.stderr), r.stderr_truncated)
                else lines_of r.stderr ≡ []))
unfolding exec_answer
exec_answer_lem with_log r = (
  clip-Within max_stdout r.stdout,
  clip-Within max_result r.result,
  exec_answer-log with_log r,
  λ silent. exec_answer-silent with_log r silent,
)

spec_of-alone :
    (test : String) (params : Option String)
    → (test == "") ≡ false
    → (m : String) (c t : Option String) → spec_of m c t none ≡ test
    → spec_of test none none params ≡ spec_of m c t params
unfolding spec_of
spec_of-alone test params real m c t same =
    let alone : join "." (given (some test) ++ given none ++ given none) ≡ test = rw real in
    let whole : join "." (given (some m) ++ given c ++ given t) ≡ test = same in
    ap
      (λ (spec : String). elim (given params) as (λ ps. String) [
        | [] ↦ spec
        | p ∷ _ ↦ concat (spec ∷ "[" ∷ p ∷ "]" ∷ [])
      ])
      (alone ∙ sym whole)

-- A run that is looked up later reads as it was answered at once, if the journal's entry names the
-- test that was asked for, with the same params, and holds the frame: the same spec, counts,
-- failures, error, Hoot's part and number of log lines, the same output and log but for an empty
-- text, which is left out, and `truncated` alike.
pub history_run-run_answer :
    (test : String) (e : PastRun) (r : RunFrame)
    → (test == "") ≡ false
    → spec_of e.module_name e.test_class e.test_method none ≡ test
    → e.result ≡ some r
    → let now = run_answer test e.params r in
      let later = history_run e in
      (later.test ≡ now.test)
      × (later.counts ≡ now.counts)
      × (failures_of later.failed ≡ now.failed)
      × (later.stdout ≡ filled now.stdout)
      × (later.stderr ≡ filled now.stderr)
      × (later.stderr_lines ≡ now.stderr_lines)
      × (later.error ≡ now.error)
      × (later.hoot ≡ now.hoot)
      × (later.truncated ≡ now.truncated)
unfolding history_run run_answer
history_run-run_answer test e r real same there =
    let full : or_empty e.result ≡ r = ap or_empty there in
    let log : test_log (spec_of e.module_name e.test_class e.test_method none)
          (or_empty e.result).frame.stderr
        ≡ test_log test r.frame.stderr =
      ap (λ t. test_log t (or_empty e.result).frame.stderr) same
      ∙ ap (λ q. test_log test q.frame.stderr) full in
    (
      sym (spec_of-alone test e.params real e.module_name e.test_class e.test_method same),
      ap (λ q. q.test) full,
      ap (λ q. failures_of q.failed) full,
      ap (λ q. filled (clip max_stdout q.frame.stdout).0) full,
      ap (λ l. filled l.0) log,
      ap (λ l. l.1) log,
      ap (λ q. q.frame.error) full,
      ap (λ q. q.hoot) full,
      ap
            (λ q.
              (clip max_stdout q.frame.stdout).1
              || (test_log (spec_of e.module_name e.test_class e.test_method none)
                  (or_empty e.result).frame.stderr).2)
            full
          ∙ ap (λ l. (clip max_stdout r.frame.stdout).1 || l.2) log,
    )
