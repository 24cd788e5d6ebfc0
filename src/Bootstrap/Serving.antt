-- ===== src/Bootstrap/Serving.antt =====
-- That the loop of odoo_sheller/bootstrap.py answers every command.
use odoo_sheller.Common.{
  ℕ, String, ◌≡◌, refl, ap, ◌∙◌, inl, inr, Bool, true, false, not, ◌&&◌, ◌||◌, Option, none, some,
  List, [], ◌∷◌, map, arith, if◌then◌else◌, Bool-cases, Option-cases, All,
}
use odoo_sheller.Bootstrap.{
  Error, Outcome, Report, Command, exec, run_test, commit, rollback, close, unknown, Signals, Line,
  blank, garbage, frame, raises, span_end, Kind, result, bye, Answer, Odoo, Ending, plain,
  settled_answer, still_up, is_lost, is_bye,
}
use odoo_sheller.Bootstrap.Loop.{
  then_do, os_boundary, os_commit, os_rollback, os_answered, os_run_test, os_answer, serve,
}

abbrev pub label : Answer → Kind × Option ℕ
label a = (a.t, a.id)

abbrev pub kind_of : Command → Kind
kind_of close = bye
kind_of _ = result

-- The answers that the lines call for: one to each command, up to the first close.
unfoldable pub called_for : List (Line × Signals) → List (Kind × Option ℕ)
called_for [] = []
called_for ((blank, s) ∷ rest) = called_for rest
called_for ((garbage, s) ∷ rest) = called_for rest
called_for ((frame id command, s) ∷ rest) =
    let later = called_for rest in
    if is_bye (kind_of command) then (kind_of command, id) ∷ [] else (kind_of command, id) ∷ later

-- No interrupt comes as an exception is caught with another one as that is caught in turn.
abbrev pub IsSpared : Signals → Type 0
IsSpared s = (s.catching && s.settling) ≡ false

-- An exception, if there is one, can be shown.
abbrev pub can_show : Option Error → Bool
can_show none = true
can_show (some e) = e.shows

-- Whatever is raised can be shown, and whatever is answered can be written.
pub record Renders {W : Type 0} (odoo : Odoo W) : Type 0 where
  pub by_code : (source : String) (w : W) → can_show (odoo.run_code source w).error ≡ true
  pub by_tests : (tags m : String) (w : W) → can_show (odoo.run_tests tags m w).error ≡ true
  pub by_flush : (w : W) → can_show (odoo.flush w).error ≡ true
  pub by_invalidate : (w : W) → can_show (odoo.invalidate w).error ≡ true
  pub by_commit : (w : W) → can_show (odoo.cr_commit w).error ≡ true
  pub by_rollback : (w : W) → can_show (odoo.cr_rollback w).error ≡ true
  pub written : (a : Answer) → odoo.encodes a ≡ true

abbrev pub named : Option Answer → Option (Kind × Option ℕ)
named none = none
named (some a) = some (label a)

module _ {W : Type 0} where
  -- A command's answer has its id, and leaves the flag down and the process alive.
  abbrev pub Settles : Option ℕ → Kind → Signals → W × Bool × Ending → Type 0
  Settles id t s r =
      (named (settled_answer id r.2) ≡ some (t, id))
      × (still_up r.1 r.2 ≡ false)
      × (is_lost s r.2 ≡ false)

  os_boundary-Settles :
      (o : Outcome W (Unit {0})) (id : Option ℕ) (s : Signals)
      → IsSpared s
      → can_show o.error ≡ true
      → Settles id result s (os_boundary o id s)
  unfolding os_boundary settled_answer still_up is_lost plain span_end
  os_boundary-Settles o id s spared shown = (ground arith, ground arith, ground arith)

  then_do-shown :
      (o : Outcome W (Unit {0})) (next : W → Outcome W (Unit {0}))
      → can_show o.error ≡ true
      → ((w : W) → can_show (next w).error ≡ true)
      → can_show (then_do o next).error ≡ true
  unfolding then_do
  then_do-shown o next h k = elim (Option-cases o.error) [
    | inl e ↦ rw (then_do, e) (k o.world)
    | inr (x, e) ↦ rw (then_do, e) h
  ]

  module _ (odoo : Odoo W) where
    os_answered-Settles :
        (o : Outcome W String) (test : Option Report) (id : Option ℕ) (s : Signals)
        → IsSpared s
        → can_show o.error ≡ true
        → Settles id result s (os_answered odoo o test id s)
    unfolding os_answered settled_answer still_up is_lost plain span_end
    os_answered-Settles o test id s spared shown = (ground arith, ground arith, ground arith)

    os_run_test-Settles :
        (o : Outcome W Report) (id : Option ℕ) (s : Signals)
        → IsSpared s
        → can_show o.error ≡ true
        → Settles id result s (os_run_test odoo o id s)
    unfolding os_run_test os_answered settled_answer still_up is_lost plain span_end
    os_run_test-Settles o id s spared shown = (ground arith, ground arith, ground arith)

    os_answer-Settles :
        (id : Option ℕ) (c : Command) (s : Signals) (w : W)
        → IsSpared s
        → Renders odoo
        → Settles id (kind_of c) s (os_answer odoo id c s w)
    unfolding os_answer os_commit os_rollback
    os_answer-Settles id (exec source) s w h r =
        os_answered-Settles _ none id s h (r.by_code source _)
    os_answer-Settles id (run_test m c t params) s w h r =
        os_run_test-Settles _ id s h (r.by_tests _ m _)
    os_answer-Settles id commit s w h r = os_boundary-Settles (os_commit odoo w) id s h (
        then_do-shown (then_do (odoo.flush w) odoo.cr_commit) odoo.invalidate
          (then_do-shown (odoo.flush w) odoo.cr_commit (r.by_flush w) r.by_commit) r.by_invalidate)
    os_answer-Settles id rollback s w h r =
        os_boundary-Settles (os_rollback odoo w) id s h
          (then_do-shown (odoo.invalidate w) odoo.cr_rollback (r.by_invalidate w) r.by_rollback)
    os_answer-Settles id close s w h r =
        unfold settled_answer still_up is_lost plain in (refl, refl, refl)
    os_answer-Settles id (unknown kind) s w h r =
        unfold settled_answer still_up is_lost plain in (refl, refl, refl)

    -- Where what is raised can be shown as a text and what is answered can be written as UTF-8, and
    -- wherever interrupts land, between commands, in one, at its end, while its exception is caught or
    -- while an answer is written: the loop writes one answer to each command, in order and with its
    -- id, up to the first close, whose answer is the last; lines that are no command get none. What
    -- is left out is an interrupt as an exception is caught with another one as that is caught in turn.
    pub serve-answers :
        (lines : List (Line × Signals)) (w : W)
        → Renders odoo
        → All (λ l. IsSpared l.1) lines
        → map label (serve odoo lines false w).0 ≡ called_for lines
    unfolding serve called_for
    serve-answers [] w r h = refl
    serve-answers ((blank, s) ∷ rest) w r (h, hs) = serve-answers rest w r hs
    serve-answers ((garbage, s) ∷ rest) w r (h, hs) = serve-answers rest w r hs
    serve-answers ((frame id c, s) ∷ rest) w r (h, hs) =
        let o = os_answer odoo id c s w in
        let (own, down, alive) = os_answer-Settles id c s w h r in
        let later = serve odoo rest (still_up o.1 o.2) o.0 in
        let rest_answers : map label later.0 ≡ called_for rest =
          ap (λ up. map label (serve odoo rest up o.0).0) down ∙ serve-answers rest o.0 r hs in
        elim (Option-cases (settled_answer id o.2)) [
          | inl none_of ↦ absurd (ground (arith, own, none_of))
          | inr (a, there) ↦
              let tagged : label a ≡ (kind_of c, id) = ground (arith, own, there) in
              let still : (is_lost s o.2
                    || raises (still_up o.1 o.2) s.sending
                    || not (odoo.encodes a))
                  ≡ false =
                ground (arith, alive, down, r.written a) in
              let last : is_bye a.t ≡ is_bye (kind_of c) = ap (λ l. is_bye l.0) tagged in
              elim (Bool-cases (is_bye (kind_of c))) [
                | inl e ↦
                    rw (there, serve) (rw still (rw (last ∙ e) (rw e (ap (λ l. l ∷ []) tagged))))
                | inr e ↦
                    rw (there, serve)
                      (rw still (
                        rw (last ∙ e) (
                          rw e (
                            ap (λ l. l ∷ map label later.0) tagged
                            ∙ ap (λ ls. (kind_of c, id) ∷ ls) rest_answers))))
              ]
        ]
