-- ===== src/Journal/Listing/Runs.antt =====
-- What happens to the journals of odoo_sheller/journal.py, one operation after another, with the
-- cache and without it.
use odoo_sheller.Common.{
  ℕ, String, ◌≡◌, refl, sym, ap, ◌∙◌, subst, ◌⊎◌, inl, inr, false, not, Option, none, some, List,
  [], ◌∷◌, arith, ◌==◌, string_eq, nat_eq, Bool-cases, Option-cases, is_some, keep,
}
use odoo_sheller.Journal.Files.{find_journal}
use odoo_sheller.Journal.Listing.{
  Raw, Row, Directory, Cache, list_journals, set_file, write, delete_journal,
}
use odoo_sheller.Journal.Listing.Cached.{
  lookup-keep, Grown, Coherent, fresh_list, list_journals-fresh, write-Coherent,
}

-- `paths` is what `glob` finds, in the order of the call.
pub data Operation : Type 0 where
  written : String → ℕ → Raw → Operation
  listed : List String → Operation
  deleted : List String → String → Operation

-- What the caller gets.
pub data Output : Type 0 where
  done : Output
  rows : List Row → Output
  unlinked : Option String → Output

module _ (elapsed : String → String → Option ℕ) where
  unfoldable pub perform : Operation → Directory → Cache → Output × Directory × Cache
  perform (written path now line) dir c = (done, write path now line dir, c)
  perform (listed paths) dir c =
      let (rs, d) = list_journals elapsed paths dir c in (rows rs, dir, d)
  perform (deleted paths id) dir c =
      let (out, e, d) = delete_journal paths id dir c in (unlinked out, e, d)

  unfoldable pub run : List Operation → Directory → Cache → List Output
  run [] dir c = []
  run (o ∷ os) dir c = let (out, e, d) = perform o dir c in out ∷ run os e d

  -- The same without a cache: a list reads every file that is there.
  unfoldable pub perform_fresh : Operation → Directory → Output × Directory
  perform_fresh (written path now line) dir = (done, write path now line dir)
  perform_fresh (listed paths) dir = (rows (fresh_list elapsed paths dir), dir)
  perform_fresh (deleted paths id) dir =
      let (out, e, d) = delete_journal paths id dir [] in (unlinked out, e)

  unfoldable pub run_fresh : List Operation → Directory → List Output
  run_fresh [] dir = []
  run_fresh (o ∷ os) dir = let (out, e) = perform_fresh o dir in out ∷ run_fresh os e

  delete-cases :
      (paths : List String) (id : String) (dir : Directory)
      → ((c : Cache) → delete_journal paths id dir c ≡ (none, dir, c))
        ⊎ ((path : String) × ((c : Cache)
              → delete_journal paths id dir c
                ≡ (some path, set_file path none dir, keep (λ k. not (k.0 == path)) c)))
  unfolding delete_journal
  delete-cases paths id dir = elim (Option-cases (find_journal paths id)) [
    | inl e ↦ inl (λ c. ground (arith, e))
    | inr (path, e) ↦ elim (Bool-cases (is_some (dir path))) [
      | inl there ↦ inr (path, λ c. ground (arith, e, there))
      | inr gone ↦ inl (λ c. ground (arith, e, gone))
    ]
  ]

  -- What was kept of a file is forgotten with it.
  set_file-Coherent :
      (path : String) (dir : Directory) (c : Cache)
      → Coherent elapsed dir c
      → Coherent elapsed (set_file path none dir) (keep (λ k. not (k.0 == path)) c)
  unfolding Coherent Grown
  set_file-Coherent path dir c h p k at =
      let kept = sym (lookup-keep (λ q. not (q == path)) p c) ∙ at in
      let apart : (p == path) ≡ false = ground (arith, kept) in
      let (f, old, more, found, lines, bytes, row) = h p k (ground (arith, kept, apart)) in
      (f, old, more, ground (arith, found, apart), lines, bytes, row)

  delete-Coherent :
      (paths : List String) (id : String) (dir : Directory) (c : Cache)
      → Coherent elapsed dir c
      → ((delete_journal paths id dir c).0 ≡ (delete_journal paths id dir []).0)
        × ((delete_journal paths id dir c).1 ≡ (delete_journal paths id dir []).1)
        × Coherent elapsed (delete_journal paths id dir c).1 (delete_journal paths id dir c).2
  delete-Coherent paths id dir c h = elim (delete-cases paths id dir) [
    | inl e ↦ (
      ap (λ r. r.0) (e c ∙ sym (ap (λ r. (r.0, r.1, c)) (e []))),
      ap (λ r. r.1) (e c ∙ sym (ap (λ r. (r.0, r.1, c)) (e []))),
      subst (λ r. Coherent elapsed r.1 r.2) (sym (e c)) h,
    )
    | inr (path, e) ↦ (
      ap (λ r. r.0) (e c) ∙ sym (ap (λ r. r.0) (e [])),
      ap (λ r. r.1) (e c) ∙ sym (ap (λ r. r.1) (e [])),
      subst (λ r. Coherent elapsed r.1 r.2) (sym (e c)) (set_file-Coherent path dir c h),
    )
  ]

  perform-fresh :
      (o : Operation) (dir : Directory) (c : Cache)
      → Coherent elapsed dir c
      → ((perform o dir c).0 ≡ (perform_fresh o dir).0)
        × ((perform o dir c).1 ≡ (perform_fresh o dir).1)
        × Coherent elapsed (perform o dir c).1 (perform o dir c).2
  unfolding perform perform_fresh
  perform-fresh (written path now line) dir c h =
      (refl, refl, write-Coherent elapsed path now line dir c h)
  perform-fresh (listed paths) dir c h =
      let (same, good) = list_journals-fresh elapsed paths dir c h in (ap rows same, refl, good)
  perform-fresh (deleted paths id) dir c h =
      let (a, b, good) = delete-Coherent paths id dir c h in (ap unlinked a, b, good)

  run-Coherent :
      (os : List Operation) (dir : Directory) (c : Cache)
      → Coherent elapsed dir c
      → run os dir c ≡ run_fresh os dir
  unfolding run run_fresh
  run-Coherent [] dir c h = refl
  run-Coherent (o ∷ os) dir c h =
      let (out, next, good) = perform-fresh o dir c h in
      ap (λ x. x ∷ run os (perform o dir c).1 (perform o dir c).2) out
      ∙ ap (λ xs. (perform_fresh o dir).0 ∷ xs)
          (run-Coherent os (perform o dir c).1 (perform o dir c).2 good
            ∙ ap (λ d. run_fresh os d) next)

  -- The cache does not show: whatever lines are appended, lists asked for and journals deleted, in
  -- any order and with whatever `glob` finds each time, the callers get what they would get if every
  -- list read every file anew. Nothing else may change the files.
  pub run-run_fresh : (os : List Operation) (dir : Directory) → run os dir [] ≡ run_fresh os dir
  run-run_fresh os dir =
      run-Coherent os dir [] (unfold Coherent in λ p k at. absurd (ground (arith, at)))
