-- ===== src/Journal/Numbers/Agreeing.antt =====
-- The readers of odoo_sheller/journal.py number the commands of a journal alike.
use odoo_sheller.Common.{ℕ, String, ◌≡◌, sym, ap, ◌∙◌, Bool, Option, List, arith}
use odoo_sheller.Journal.{Line, nothing_read, session_meta}
use odoo_sheller.Journal.Feed.{feed_from_records}
use odoo_sheller.Journal.Markdown.{no_transcript, transcript_loop, transcript_blocks}
use odoo_sheller.Journal.Following.Whole.{feed_from_records-replay}
use odoo_sheller.Journal.Numbers.{
  headings, cells, commands_from, count_from, numbers, numbers-commands_from, commands-summarise,
}
use odoo_sheller.Journal.Numbers.Fed.{cells-replay}
use odoo_sheller.Journal.Numbers.Told.{headings-flush_log, headings-transcript_loop}

-- The Markdown transcript of a journal, with a header or without, and the feed rebuilt from it show
-- the same commands under the same numbers in the same order. The numbers are 1, 2, 3 and so on, as
-- many as the journal's summary counts commands.
pub headings-cells :
    (meta logs : Bool) (tail : Option ℕ) (elapsed : String → String → Option ℕ) (id : Option String)
    (ls : List Line)
    → (headings (transcript_blocks meta ls) ≡ cells (feed_from_records ls logs tail).1)
      × (numbers (cells (feed_from_records ls logs tail).1)
          ≡ count_from 0 (session_meta elapsed id ls).commands)
unfolding session_meta transcript_blocks commands_from headings
headings-cells meta logs tail elapsed id ls =
    let told : headings (transcript_blocks meta ls) ≡ commands_from 0 ls =
      headings-flush_log (transcript_loop meta ls no_transcript)
      ∙ headings-transcript_loop meta ls no_transcript in
    let fed : cells (feed_from_records ls logs tail).1 ≡ commands_from 0 ls =
      ap cells (feed_from_records-replay ls logs tail) ∙ cells-replay 0 ls in
    (
      told ∙ sym fed,
      ap numbers fed
          ∙ numbers-commands_from 0 ls
          ∙ ap (count_from 0) (omega (arith, commands-summarise ls nothing_read 0)),
    )
