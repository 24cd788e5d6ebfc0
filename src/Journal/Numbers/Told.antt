-- ===== src/Journal/Numbers/Told.antt =====
-- The headings of a transcript of odoo_sheller/journal.py.
use odoo_sheller.Common.{
  ℕ, suc, String, ◌≡◌, refl, sym, ap, ◌∙◌, inl, inr, Bool, true, false, Option, none, some, List,
  [], ◌∷◌, ◌++◌, arith, Option-cases, append-nil, append_assoc,
}
use odoo_sheller.Journal.{
  Body, session_open, session_close, session_died, sent, result, timeout, boundary, interrupt,
  stderr, owner_changed, policy_changed, other, Line,
}
use odoo_sheller.Journal.Markdown.{
  Block, opening, heading, late, answer, transaction, interrupted, moved, right, exceeded, final,
  Transcript, log_block, flush_log, say, number_of, holds_true, tell, held, log_line, transcribe,
  transcript_loop,
}
use odoo_sheller.Journal.Following.{next_number}
use odoo_sheller.Journal.Numbers.{heading_of, headings, command_of, commands_from}

headings-append : (bs cs : List Block) → headings (bs ++ cs) ≡ headings bs ++ headings cs
unfolding headings
headings-append [] cs = refl
headings-append (b ∷ bs) cs =
    ap (λ rest. heading_of b ++ rest) (headings-append bs cs)
    ∙ sym (append_assoc (heading_of b) (headings bs) (headings cs))

pub headings-flush_log : (t : Transcript) → headings (flush_log t).blocks ≡ headings t.blocks
unfolding flush_log
headings-flush_log t =
    let quiet : (o : Option (List String)) → headings (log_block o) ≡ [] =
      unfold headings log_block heading_of in λ o. ground arith in
    headings-append t.blocks (log_block t.pending_log)
    ∙ ap (λ rest. headings t.blocks ++ rest) (quiet t.pending_log)
    ∙ append-nil _

headings-say :
    (b : Block) (t : Transcript) → headings (say b t).blocks ≡ headings t.blocks ++ heading_of b
headings-say b t =
    headings-append t.blocks (b ∷ [])
    ∙ ap (λ rest. headings t.blocks ++ rest) (unfold headings in append-nil (heading_of b))

headings-tell :
    (meta : Bool) (ts : Option String) (b : Body) (t : Transcript)
    → headings (tell meta ts b t).blocks ≡ headings t.blocks ++ command_of t.next_ordinal b
unfolding tell command_of heading_of
headings-tell true ts (session_open o) t = sym (append-nil _)
headings-tell false ts (session_open o) t = headings-say (opening o ts) t
headings-tell meta ts (sent id c by) t = headings-say (heading (suc t.next_ordinal) c by ts) t
headings-tell meta ts (result true id a) t =
    headings-say (answer a) (say (late (number_of id t) ts) t)
    ∙ append-nil _
    ∙ headings-say (late (number_of id t) ts) t
headings-tell meta ts (result false id a) t = headings-say (answer a) t
headings-tell meta ts (boundary commits failed by) t = headings-say (transaction commits ts) t
headings-tell meta ts interrupt t = headings-say (interrupted ts) t
headings-tell meta ts (owner_changed was now pending) t = headings-say (moved was now pending ts) t
headings-tell meta ts (policy_changed p) t = headings-say (right (holds_true p) ts) t
headings-tell meta ts (timeout id seconds) t = headings-say (exceeded (number_of id t) seconds ts) t
headings-tell meta ts session_close t = headings-say (final false ts) t
headings-tell meta ts session_died t = headings-say (final true ts) t
headings-tell meta ts (stderr line) t = sym (append-nil _)
headings-tell meta ts other t = sym (append-nil _)

next_ordinal-tell :
    (meta : Bool) (ts : Option String) (b : Body) (t : Transcript)
    → (tell meta ts b t).next_ordinal ≡ next_number b t.next_ordinal
unfolding tell next_number
next_ordinal-tell meta ts b t = ground arith

quiet_line :
    (b : Body) (line : String) (n : ℕ)
    → log_line b ≡ some line
    → (command_of n b ≡ []) × (next_number b n ≡ n)
unfolding log_line command_of next_number
quiet_line b line n e = ground (arith, e)

transcribe-told :
    (meta : Bool) (ts : Option String) (b : Body) (t : Transcript)
    → log_line b ≡ none
    → transcribe meta ts b t ≡ tell meta ts b (flush_log t)
unfolding transcribe
transcribe-told meta ts b t e = ground (arith, e)

transcribe-waits :
    (meta : Bool) (ts : Option String) (b : Body) (t : Transcript) (line : String)
    → log_line b ≡ some line
    → transcribe meta ts b t ≡ record t { pending_log = some (held t.pending_log ++ line ∷ []) }
unfolding transcribe
transcribe-waits meta ts b t line e = ground (arith, e)

-- What one turn of the loop adds to the headings, and to the count.
headings-transcribe :
    (meta : Bool) (ts : Option String) (b : Body) (t : Transcript)
    → (headings (transcribe meta ts b t).blocks ≡ headings t.blocks ++ command_of t.next_ordinal b)
      × ((transcribe meta ts b t).next_ordinal ≡ next_number b t.next_ordinal)
headings-transcribe meta ts b t = elim (Option-cases (log_line b)) [
  | inl e ↦
      let told = transcribe-told meta ts b t e in
      (
        ap (λ (u : Transcript). headings u.blocks) told
            ∙ headings-tell meta ts b (flush_log t)
            ∙ (unfold flush_log in
                ap (λ hs. hs ++ command_of t.next_ordinal b) (headings-flush_log t)),
        ap (λ (u : Transcript). u.next_ordinal) told
            ∙ (unfold flush_log in next_ordinal-tell meta ts b (flush_log t)),
      )
  | inr (line, e) ↦
      let (a, c) = quiet_line b line t.next_ordinal e in
      let waits = transcribe-waits meta ts b t line e in
      (
        ap (λ (u : Transcript). headings u.blocks) waits
            ∙ sym (append-nil _)
            ∙ ap (λ hs. headings t.blocks ++ hs) (sym a),
        ap (λ (u : Transcript). u.next_ordinal) waits ∙ sym c,
      )
]

pub headings-transcript_loop :
    (meta : Bool) (ls : List Line) (t : Transcript)
    → headings (transcript_loop meta ls t).blocks
      ≡ headings t.blocks ++ commands_from t.next_ordinal ls
unfolding transcript_loop commands_from
headings-transcript_loop meta [] t = sym (append-nil _)
headings-transcript_loop meta (l ∷ ls) t =
    let next : Transcript = transcribe meta l.ts l.body t in
    let (a, b) = headings-transcribe meta l.ts l.body t in
    headings-transcript_loop meta ls next
    ∙ ap (λ hs. hs ++ commands_from next.next_ordinal ls) a
    ∙ append_assoc (headings t.blocks) (command_of t.next_ordinal l.body) _
    ∙ ap (λ n. headings t.blocks ++ (command_of t.next_ordinal l.body ++ commands_from n ls)) b
