-- ===== src/Targets/Tidy.antt =====
-- The cards of odoo_sheller/targets.py are told apart by their builds, ids and names.
use odoo_sheller.Common.{
  String, ◌≡◌, refl, sym, ap, ◌∙◌, subst, inl, inr, Bool, true, false, not, ◌||◌, Option, none,
  some, List, [], ◌∷◌, map, arith, eq_iff, ◌==◌, string_eq, nat_eq, Bool-cases, Option-cases,
  sum-cases, any, keep, All,
}
use odoo_sheller.Targets.{
  OdooshEntry, Cards, File, Wording, text_or_empty, build_name, read_file, same_name, checked_name,
  OdooshFields, other_builds, moves_onto, name_for, stage_for, checked_odoosh,
}
use odoo_sheller.Targets.Store.{replace_build}

module _ {A : Type 0} (q : A → Bool) (P : A → Type 0) where
  All-keep_if : (xs : List A) → All (λ x. q x ≡ true → P x) xs → All P (keep q xs)
  All-keep_if [] h = tt
  All-keep_if (x ∷ xs) (h, hs) = elim (Bool-cases (q x)) [
    | inl e ↦ rw e (h e, All-keep_if xs hs)
    | inr e ↦ rw e (All-keep_if xs hs)
  ]

  All-keep : (xs : List A) → All P xs → All P (keep q xs)
  All-keep [] h = tt
  All-keep (x ∷ xs) (h, hs) = elim (Bool-cases (q x)) [
    | inl e ↦ rw e (h, All-keep xs hs)
    | inr e ↦ rw e (All-keep xs hs)
  ]

All-imp2 :
    {A : Type 0} {P Q R : A → Type 0} (f : (x : A) → P x → Q x → R x) (xs : List A)
    → All P xs
    → All Q xs
    → All R xs
All-imp2 f [] h k = tt
All-imp2 f (x ∷ xs) (h, hs) (k, ks) = (f x h k, All-imp2 f xs hs ks)

or_false : (a b : Bool) → (a || b) ≡ false → (a ≡ false) × (b ≡ false)
or_false a b h = ground arith

module _ {A : Type 0} (q p : A → Bool) where
  any-keep : (xs : List A) → any p (keep q xs) ≡ false → All (λ x. q x ≡ true → p x ≡ false) xs
  any-keep [] h = tt
  any-keep (x ∷ xs) h = elim (Bool-cases (q x)) [
    | inl e ↦
        let (k, ks) = or_false (p x) (any p (keep q xs)) (rw e at h) in (λ _. k, any-keep xs ks)
    | inr e ↦ (λ f. absurd (ground arith), any-keep xs (rw e at h))
  ]

any-map :
    {A B : Type 0} (p : B → Bool) (g : A → B) (xs : List A)
    → any p (map g xs) ≡ any (λ x. p (g x)) xs
any-map p g [] = refl
any-map p g (x ∷ xs) = ap (λ (b : Bool). p (g x) || b) (any-map p g xs)

-- No two builds are the same or are called the same.
module _ (w : Wording) where
  abbrev pub Apart : OdooshEntry → OdooshEntry → Type 0
  Apart a b = (a.build == b.build ≡ false) × (same_name w (build_name a) (build_name b) ≡ false)

  abbrev pub BuildsApart : List OdooshEntry → Type 0
  BuildsApart [] = Unit
  BuildsApart (e ∷ es) = All (Apart e) es × BuildsApart es

  pub BuildsApart-keep :
      (q : OdooshEntry → Bool) (es : List OdooshEntry) → BuildsApart es → BuildsApart (keep q es)
  BuildsApart-keep q [] h = tt
  BuildsApart-keep q (e ∷ es) (h, hs) = elim (Bool-cases (q e)) [
    | inl k ↦ rw k (All-keep q (Apart e) es h, BuildsApart-keep q es hs)
    | inr k ↦ rw k (BuildsApart-keep q es hs)
  ]

  Apart-sym : (a b : OdooshEntry) → Apart a b → Apart b a
  Apart-sym a b (h, k) = (
    ground (arith, eq_iff a.build b.build, eq_iff b.build a.build, h),
    ground (
      arith,
      eq_iff (w.casefold (build_name a)) (w.casefold (build_name b)),
      eq_iff (w.casefold (build_name b)) (w.casefold (build_name a)),
      k,
    ),
  )

  -- The name that a new entry goes by.
  called : String → Option String → String
  called build n = build_name (record { name = n; build = build; host = ""; stage = none })

  -- What the name of a new entry is compared with.
  name_for-clear :
      (others : List OdooshEntry) (build name : String) (n : Option String)
      → name_for w others build name ≡ inr n
      → any (λ o. same_name w (build_name o) (called build n)) others ≡ false
  unfolding called build_name checked_name
  name_for-clear others build name n h = elim (Bool-cases (w.strip name == "")) [
    | inl e ↦
        let free : any (λ o. same_name w (build_name o) build) others ≡ false = ground arith in
        let unnamed : none ≡ n = ground arith in
        subst (λ m. any (λ o. same_name w (build_name o) (called build m)) others ≡ false) unnamed
          free
    | inr e ↦
        let short = w.strip name in
        let named : some short ≡ n = ground arith in
        let free : any (λ o. same_name w o short) (map build_name others) ≡ false = ground arith in
        let goes_by : called build (some short) ≡ short = ground (arith, e) in
        subst (λ m. any (λ o. same_name w (build_name o) (called build m)) others ≡ false) named
          (rw goes_by (sym (any-map (λ o. same_name w o short) build_name others) ∙ free))
  ]

  abbrev pub IsNew : List OdooshEntry → OdooshFields w → Option String → OdooshEntry → Type 0
  IsNew es f own e =
      (any (λ o. same_name w (build_name o) (build_name e)) (other_builds w es e.build own) ≡ false)
      × (moves_onto w es e.build own ≡ false)
      × (f.build ≡ some e.build)

  -- A checked entry is apart from every card that it does not take the place of.
  pub checked_odoosh-names :
      (es : List OdooshEntry) (f : OdooshFields w) (own : Option String) (e : OdooshEntry)
      → checked_odoosh w es f own ≡ inr e
      → IsNew es f own e
  unfolding checked_odoosh called build_name
  checked_odoosh-names es f own e h = elim (Option-cases f.build) [
    | inl a ↦ absurd (ground arith)
    | inr (build, a) ↦ elim (Option-cases f.host) [
      | inl b ↦ absurd (ground arith)
      | inr (host, b) ↦
          let others = other_builds w es build own in
          elim (sum-cases (name_for w others build (text_or_empty f.name))) [
            | inl (p, c) ↦ absurd (ground arith)
            | inr (n, c) ↦ elim (Bool-cases (moves_onto w es build own)) [
              | inl m ↦ absurd (ground arith)
              | inr m ↦ elim (sum-cases (stage_for w f.stage)) [
                | inl (p, g) ↦ absurd (ground arith)
                | inr (stage, g) ↦
                    let made : OdooshEntry = record {
                      name = n;
                      build = build;
                      host = host;
                      stage = stage;
                    } in
                    let same : made ≡ e = ground arith in
                    subst (IsNew es f own) same
                      (name_for-clear others build (text_or_empty f.name) n c, m, a)
              ]
            ]
          ]
    ]
  ]

  abbrev pub Tidy : File → Type 0
  Tidy f = (c : Cards) → read_file f ≡ inr c → BuildsApart c.odoosh

  Apart-named :
      (e o : OdooshEntry)
      → o.build == e.build ≡ false
      → same_name w (build_name o) (build_name e) ≡ false
      → Apart e o
  Apart-named e o h k = Apart-sym o e (h, k)

  pub add-BuildsApart :
      (es : List OdooshEntry) (f : OdooshFields w) (e : OdooshEntry)
      → BuildsApart es
      → checked_odoosh w es f none ≡ inr e
      → BuildsApart (e ∷ keep (λ o. not (o.build == e.build)) es)
  add-BuildsApart es f e t h =
      let (free, m, b) = checked_odoosh-names es f none e h in
      let clear =
        any-keep (λ o. not (o.build == e.build || false))
          (λ o. same_name w (build_name o) (build_name e)) es free in
      let q = λ (o : OdooshEntry). not (o.build == e.build) in
      let met =
        All-imp2
          (λ o k k' (x : q o ≡ true). Apart-named e o (ground (arith, x)) (k (ground (arith, x))))
          es clear clear in
      (All-keep_if q (Apart e) es met, BuildsApart-keep q es t)

  All-replace :
      (P : OdooshEntry → Type 0) (build : String) (e : OdooshEntry) (es : List OdooshEntry)
      → P e
      → All P es
      → All P (replace_build build e es)
  unfolding replace_build
  All-replace P build e [] p h = tt
  All-replace P build e (o ∷ es) p (h, hs) = elim (Bool-cases (o.build == build)) [
    | inl k ↦ rw k (p, hs)
    | inr k ↦ rw k (h, All-replace P build e es p hs)
  ]

  moved :
      (a b : OdooshEntry) (build : String)
      → a.build == build ≡ true
      → Apart a b
      → b.build == build ≡ false
  moved a b build h (k, g) =
      ground (arith, eq_iff a.build build, eq_iff b.build build, eq_iff a.build b.build)

  replace-BuildsApart :
      (build : String) (e : OdooshEntry) (es : List OdooshEntry)
      → BuildsApart es
      → All (λ o. o.build == build ≡ false → Apart e o) es
      → BuildsApart (replace_build build e es)
  unfolding replace_build
  replace-BuildsApart build e [] t h = tt
  replace-BuildsApart build e (o ∷ es) (t, ts) (h, hs) = elim (Bool-cases (o.build == build)) [
    | inl k ↦ rw k (All-imp2 (λ x a f. f (moved o x build k a)) es t hs, ts)
    | inr k ↦ rw k (
      All-replace (Apart o) build e es (Apart-sym e o (h k)) t,
      replace-BuildsApart build e es ts hs,
    )
  ]

  -- Where a card that keeps its place is checked, it is apart from all cards but the one it was.
  any-none :
      (p : OdooshEntry → Bool) (es : List OdooshEntry)
      → any p es ≡ false
      → All (λ o. p o ≡ false) es
  any-none p [] h = tt
  any-none p (o ∷ es) h = let (k, ks) = or_false (p o) (any p es) h in (k, any-none p es ks)

  pub update-BuildsApart :
      (build : String) (es : List OdooshEntry) (f : OdooshFields w) (e : OdooshEntry)
      → BuildsApart es
      → checked_odoosh w es f (some build) ≡ inr e
      → BuildsApart (replace_build build e es)
  update-BuildsApart build es f e t h =
      let (free, m, b) = checked_odoosh-names es f (some build) e h in
      let clear =
        any-keep (λ o. not (o.build == e.build || o.build == build))
          (λ o. same_name w (build_name o) (build_name e)) es free in
      elim (Bool-cases (e.build == build)) [
        | inl k ↦ replace-BuildsApart build e es t (
            All-imp2
              (λ o g g' (x : o.build == build ≡ false).
                let other : o.build == e.build ≡ false =
                  ground (arith, x, k, eq_iff e.build build) in
                Apart-named e o other (g (ground (arith, x, other))))
              es clear clear)
        | inr k ↦
            let none_there : any (λ (o : OdooshEntry). o.build == e.build) es ≡ false =
              ground (arith, m, k) in
            replace-BuildsApart build e es t (
              All-imp2
                (λ o g other (x : o.build == build ≡ false).
                  Apart-named e o other (g (ground (arith, x, other))))
                es clear (any-none (λ o. o.build == e.build) es none_there))
      ]
