-- ===== src/Journal/Listing/Cached.antt =====
-- The cache of odoo_sheller/journal.py does not show.
use odoo_sheller.Common.{
  ℕ, ◌+◌, String, ◌≡◌, refl, sym, ap, ◌∙◌, subst, ◌⊎◌, inl, inr, Bool, ◌&&◌, Option, none, some,
  List, [], ◌∷◌, ◌++◌, arith, eq_iff, if◌then◌else◌, ◌==◌, string_eq, nat_eq, Bool-cases,
  Option-cases, keep, contains, lookup, append-nil, append_assoc,
}
use odoo_sheller.Journal.Listing.{
  Raw, JournalFile, size, Row, Directory, Kept, Cache, seen, summary, row_of, list_loop,
  list_journals, write,
}

size-append : (xs ys : List Raw) → size (xs ++ ys) ≡ size xs + size ys
unfolding size
size-append [] ys = omega arith
size-append (r ∷ rs) ys = omega (arith, size-append rs ys)

size-zero : (xs : List Raw) → size xs ≡ 0 → xs ≡ []
unfolding size
size-zero [] h = refl
size-zero (r ∷ rs) h = absurd (omega (arith, h))

pub lookup-keep :
    {A : Type 0} (p : String → Bool) (k : String) (m : List (String × A))
    → lookup k (keep (λ e. p e.0) m) ≡ (if p k then lookup k m else none)
lookup-keep p k [] = ground arith
lookup-keep p k ((j, v) ∷ m) = elim (Bool-cases (j == k)) [
  | inl e ↦
      let same : p j ≡ p k = ap p ((eq_iff j k).0 e) in
      elim (Bool-cases (p j)) [
        | inl h ↦ rw (h, e) (ground (arith, sym same ∙ h))
        | inr h ↦ rw h (lookup-keep p k m ∙ ground (arith, sym same ∙ h))
      ]
  | inr e ↦ elim (Bool-cases (p j)) [
    | inl h ↦ rw (h, e) (lookup-keep p k m)
    | inr h ↦ rw (h, e) (lookup-keep p k m)
  ]
]

module _ (elapsed : String → String → Option ℕ) where
  -- What a kept row was read from is the front part of the file, which may have grown.
  unfoldable pub Grown : Directory → String → Kept → Type 0
  Grown dir path k =
      (f : JournalFile) × (old : List Raw) × (more : List Raw) × (dir path ≡ some f)
      × (f.lines ≡ old ++ more)
      × (k.size ≡ size old)
      × (k.row ≡ summary elapsed path (size old) old)

  unfoldable pub Coherent : Directory → Cache → Type 0
  Coherent dir c = (path : String) (k : Kept) → lookup path c ≡ some k → Grown dir path k

  fresh_of : String → JournalFile → Row
  fresh_of path f = summary elapsed path (size f.lines) f.lines

  -- A row that is kept under the file's size is what reading the file again gives.
  kept_row :
      (dir : Directory) (path : String) (k : Kept) (f : JournalFile)
      → Grown dir path k
      → dir path ≡ some f
      → k.size ≡ size f.lines
      → k.row ≡ fresh_of path f
  unfolding Grown fresh_of
  kept_row dir path k f (g, old, more, found, lines, bytes, row) h same =
      let one : g ≡ f = ground (arith, found, h) in
      let all_lines : f.lines ≡ old ++ more = ap (λ (x : JournalFile). x.lines) (sym one) ∙ lines in
      let long : size f.lines ≡ size old + size more = ap size all_lines ∙ size-append old more in
      let none_more : more ≡ [] = size-zero more (omega (arith, long, same, bytes)) in
      let whole : f.lines ≡ old = all_lines ∙ ap (λ x. old ++ x) none_more ∙ append-nil old in
      row ∙ ap (λ x. summary elapsed path (size x) x) (sym whole)

  again : String → JournalFile → Kept
  again path f = record { mtime_ns = f.mtime_ns; size = size f.lines; row = fresh_of path f }

  row_of-cases :
      (path : String) (f : JournalFile) (c : Cache)
      → (row_of elapsed path f c ≡ (fresh_of path f, (path, again path f) ∷ c))
        ⊎ ((k : Kept) × (lookup path c ≡ some k)
            × (k.size ≡ size f.lines)
            × (row_of elapsed path f c ≡ (k.row, c)))
  unfolding row_of fresh_of again
  row_of-cases path f c = elim (Option-cases (lookup path c)) [
    | inl e ↦ inl (ground (arith, e))
    | inr (k, e) ↦ elim (Bool-cases (k.mtime_ns == f.mtime_ns && k.size == size f.lines)) [
      | inl h ↦ inr (k, e, ground (arith, h), ground (arith, e, h))
      | inr h ↦ inl (ground (arith, e, h))
    ]
  ]

  again-Coherent :
      (dir : Directory) (path : String) (f : JournalFile) (c : Cache)
      → Coherent dir c
      → dir path ≡ some f
      → Coherent dir ((path, again path f) ∷ c)
  unfolding Coherent Grown again fresh_of
  again-Coherent dir path f c h found p k at = elim (Bool-cases (path == p)) [
    | inl e ↦
        let here : again path f ≡ k = ground (arith, at, e) in
        let grown : Grown dir path (again path f) =
          (f, f.lines, [], found, sym (append-nil f.lines), refl, refl) in
        subst (λ q. Grown dir q k) ((eq_iff path p).0 e) (subst (Grown dir path) here grown)
    | inr e ↦ h p k (ground (arith, at, e))
  ]

  row_of-fresh :
      (dir : Directory) (path : String) (f : JournalFile) (c : Cache)
      → Coherent dir c
      → dir path ≡ some f
      → ((row_of elapsed path f c).0 ≡ fresh_of path f) × Coherent dir (row_of elapsed path f c).1
  row_of-fresh dir path f c h found = elim (row_of-cases path f c) [
    | inl e ↦ (
      ap (λ r. r.0) e,
      subst (λ r. Coherent dir r.1) (sym e) (again-Coherent dir path f c h found),
    )
    | inr (k, at, same, e) ↦ (
      ap (λ r. r.0) e ∙ kept_row dir path k f (unfold Coherent in h path k at) found same,
      subst (λ r. Coherent dir r.1) (sym e) h,
    )
  ]

  -- The list without a cache: every file that is there is read.
  unfoldable pub fresh_list : List String → Directory → List Row
  fresh_list [] dir = []
  fresh_list (path ∷ paths) dir = elim (dir path) [
    | none ↦ fresh_list paths dir
    | some f ↦ summary elapsed path (size f.lines) f.lines ∷ fresh_list paths dir
  ]

  -- The two lists at a file that is gone, and at one that is there.
  list-gone :
      (path : String) (paths : List String) (dir : Directory) (c : Cache)
      → dir path ≡ none
      → (list_loop elapsed (path ∷ paths) dir c ≡ list_loop elapsed paths dir c)
        × (fresh_list (path ∷ paths) dir ≡ fresh_list paths dir)
  unfolding list_loop fresh_list
  list-gone path paths dir c e = (ground (arith, e), ground (arith, e))

  list-there :
      (path : String) (paths : List String) (dir : Directory) (c : Cache) (f : JournalFile)
      → dir path ≡ some f
      → (list_loop elapsed (path ∷ paths) dir c ≡ (
        (row_of elapsed path f c).0 ∷ (list_loop elapsed paths dir (row_of elapsed path f c).1).0,
        (list_loop elapsed paths dir (row_of elapsed path f c).1).1,
      ))
        × (fresh_list (path ∷ paths) dir ≡ fresh_of path f ∷ fresh_list paths dir)
  unfolding list_loop fresh_list fresh_of
  list-there path paths dir c f e = (ground (arith, e), ground (arith, e))

  list_loop-fresh :
      (paths : List String) (dir : Directory) (c : Cache)
      → Coherent dir c
      → ((list_loop elapsed paths dir c).0 ≡ fresh_list paths dir)
        × Coherent dir (list_loop elapsed paths dir c).1
  list_loop-fresh [] dir c h = unfold list_loop fresh_list in (refl, h)
  list_loop-fresh (path ∷ paths) dir c h = elim (Option-cases (dir path)) [
    | inl e ↦
        let (a, b) = list-gone path paths dir c e in
        let (rows, fine) = list_loop-fresh paths dir c h in
        (ap (λ r. r.0) a ∙ rows ∙ sym b, subst (λ r. Coherent dir r.1) (sym a) fine)
    | inr (f, e) ↦
        let (row, good) = row_of-fresh dir path f c h e in
        let (rows, fine) = list_loop-fresh paths dir (row_of elapsed path f c).1 good in
        let (a, b) = list-there path paths dir c f e in
        (
          ap (λ r. r.0) a
              ∙ ap (λ r. r ∷ (list_loop elapsed paths dir (row_of elapsed path f c).1).0) row
              ∙ ap (λ rs. fresh_of path f ∷ rs) rows
              ∙ sym b,
          subst (λ r. Coherent dir r.1) (sym a) fine,
        )
  ]

  pub Coherent-keep :
      (dir : Directory) (p : String → Bool) (c : Cache)
      → Coherent dir c
      → Coherent dir (keep (λ k. p k.0) c)
  unfolding Coherent
  Coherent-keep dir p c h path k at = h path k (ground (arith, sym (lookup-keep p path c) ∙ at))

  pub list_journals-fresh :
      (paths : List String) (dir : Directory) (c : Cache)
      → Coherent dir c
      → ((list_journals elapsed paths dir c).0 ≡ fresh_list paths dir)
        × Coherent dir (list_journals elapsed paths dir c).1
  unfolding list_journals
  list_journals-fresh paths dir c h =
      let (rows, fine) = list_loop-fresh paths dir c h in
      (rows, Coherent-keep dir (contains (seen paths dir)) _ fine)

  pub write-Coherent :
      (path : String) (now : ℕ) (line : Raw) (dir : Directory) (c : Cache)
      → Coherent dir c
      → Coherent (write path now line dir) c
  unfolding Coherent Grown write
  write-Coherent path now line dir c h p k at =
      let (f, old, more, found, lines, bytes, row) = h p k at in
      elim (Bool-cases (p == path)) [
        | inl e ↦
            let same : dir path ≡ some f =
              subst (λ q. dir q ≡ some f) ((eq_iff p path).0 e) found in
            let longer : f.lines ++ line ∷ [] ≡ old ++ (more ++ line ∷ []) =
              ap (λ ls. ls ++ line ∷ []) lines ∙ append_assoc old more (line ∷ []) in
            (
              record { mtime_ns = now; lines = f.lines ++ line ∷ [] },
              old,
              more ++ line ∷ [],
              ground (arith, same, e),
              longer,
              bytes,
              row,
            )
        | inr e ↦ (f, old, more, ground (arith, e, found), lines, bytes, row)
      ]
