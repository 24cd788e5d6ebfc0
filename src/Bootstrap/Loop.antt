-- ===== src/Bootstrap/Loop.antt =====
-- The commands of odoo_sheller/bootstrap.py and its loop.
use odoo_sheller.Common.{
  ℕ, String, Bool, true, false, not, ◌||◌, Option, none, some, List, [], ◌∷◌, if◌then◌else◌,
  text_append, concat,
}
use odoo_sheller.Bootstrap.{
  max_stdout, max_result, Error, Outcome, Report, Command, exec, run_test, commit, rollback, close,
  unknown, Signals, Line, blank, garbage, frame, raises, caught, escaped, broken, span_end, result,
  bye, Answer, Odoo, Ending, answers, interrupted, failed, clip, clip_value, plain, test_tags,
  settled_answer, still_up, is_lost, is_bye,
}

-- A refusal of the runner is an error of the answer, raised by nothing.
abbrev refused_run : Error
refused_run = record {
  shows = true;
  kind = "TestRunnerRefused";
  message = concat (
      "the test runner refused to run: the container's "
      ∷ "Odoo config must have workers=0 (threaded mode)" ∷ []);
  traceback = "";
}

module _ {W : Type 0} where
  -- One after the other, up to the first that raises.
  unfoldable pub then_do : Outcome W (Unit {0}) → (W → Outcome W (Unit {0})) → Outcome W (Unit {0})
  then_do o next = elim o.error [ none ↦ next o.world | some e ↦ o ]

  -- `_os_boundary`: the world, whether the flag is still up, and the answer or an escaped interrupt.
  unfoldable pub os_boundary : Outcome W (Unit {0}) → Option ℕ → Signals → W × Bool × Ending
  unfolding span_end plain
  os_boundary o id s = elim (span_end s o.error) [
    | caught e ↦ (o.world, false, answers (plain id e))
    | escaped ↦ (o.world, true, interrupted)
    | broken ↦ (o.world, false, failed)
  ]

  abbrev pub with_refusal : Outcome W Report → Ending → Ending
  with_refusal o (answers a) = elim a.error [
    | some e ↦ answers a
    | none ↦ elim o.value [
      | some r ↦ answers a
      | none ↦ answers (record a { error = some refused_run })
    ]
  ]
  with_refusal o e = e

module _ {W : Type 0} (odoo : Odoo W) where
  -- `_os_commit` and `_os_rollback`
  unfoldable pub os_commit : W → Outcome W (Unit {0})
  unfolding then_do
  os_commit w = then_do (then_do (odoo.flush w) odoo.cr_commit) odoo.invalidate

  unfoldable pub os_rollback : W → Outcome W (Unit {0})
  unfolding then_do
  os_rollback w = then_do (odoo.invalidate w) odoo.cr_rollback

  -- `_os_run` and `_os_run_test` behind their body, with the id that `_os_answer` adds.
  unfoldable pub os_answered :
      Outcome W String → Option Report → Option ℕ → Signals → W × Bool × Ending
  unfolding span_end clip
  os_answered o test id s = elim (span_end s o.error) [
    | escaped ↦ (o.world, true, interrupted)
    | broken ↦ (o.world, false, failed)
    | caught e ↦ (
      o.world,
      false,
      answers (record {
        t = result;
        id = id;
        text = clip max_stdout (odoo.printed o.world);
        value = clip_value max_result o.value;
        error = e;
        test = test;
      }),
    )
  ]

  unfoldable pub os_run_test : Outcome W Report → Option ℕ → Signals → W × Bool × Ending
  unfolding os_answered
  os_run_test o id s =
      let ran : Outcome W String = record { world = o.world; error = o.error; value = none } in
      let (w, live, a) = os_answered ran o.value id s in (w, live, with_refusal o a)

  -- `_os_answer`
  unfoldable pub os_answer : Option ℕ → Command → Signals → W → W × Bool × Ending
  unfolding os_answered os_run_test os_boundary os_commit os_rollback plain test_tags
  os_answer id (exec source) s w = os_answered (odoo.run_code source (odoo.capture w)) none id s
  os_answer id (run_test m c t params) s w =
      os_run_test (odoo.run_tests (test_tags m c t params) m (odoo.capture w)) id s
  os_answer id commit s w = os_boundary (os_commit w) id s
  os_answer id rollback s w = os_boundary (os_rollback w) id s
  os_answer id close s w = (w, false, answers (record (plain id none) { t = bye }))
  os_answer id (unknown kind) s w = (
    w,
    false,
    answers (
        plain id (
          some (record {
            shows = true;
            kind = "UnknownFrame";
            message = text_append "unknown frame type " kind;
            traceback = "";
          }))),
  )

  -- The loop of `_os_main` from one line to the next: the frames that it writes, and the world. With
  -- the flag up, an interrupt ends the process as an answer is written, and so does an answer that
  -- cannot be encoded.
  unfoldable pub serve : List (Line × Signals) → Bool → W → List Answer × W
  unfolding os_answer settled_answer still_up is_lost
  serve [] live w = ([], w)
  serve ((line, s) ∷ rest) live w = elim line [
    | blank ↦ serve rest live w
    | garbage ↦ serve rest live w
    | frame id command ↦
        if raises live s.reading
        then serve rest live w
        else (let (after, up, e) = os_answer id command s w in
            let still = still_up up e in
            let later = serve rest still after in
            elim (settled_answer id e) [
              | none ↦ ([], after)
              | some a ↦
                  if is_lost s e || raises still s.sending || not (odoo.encodes a)
                  then ([], after)
                  else if is_bye a.t
                  then (a ∷ [], after)
                  else (a ∷ later.0, later.1)
            ])
  ]
