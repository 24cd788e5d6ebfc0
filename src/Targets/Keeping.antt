-- ===== src/Targets/Keeping.antt =====
-- Every operation on the cards of odoo_sheller/targets.py keeps the builds apart.
use odoo_sheller.Common.{
  String, ◌≡◌, subst, inl, inr, not, Option, none, some, [], ◌∷◌, arith, if◌then◌else◌, ◌==◌,
  string_eq, nat_eq, Bool-cases, Option-cases, is_some, sum-cases, keep, starts_with, concat,
}
use odoo_sheller.Recipe.Words.{Python}
use odoo_sheller.Targets.{
  OdooshEntry, SshEntry, Cards, File, missing, holds, Wording, read_file, OdooshFields,
  checked_odoosh,
}
use odoo_sheller.Targets.Store.{
  ssh_prefix, Card, find_build, find_ssh, build_of, Fields, field, only_keys, replace_build,
  replace_ssh, blank, known, add_odoosh, checked_ssh, add_ssh, ssh_fields, odoosh_fields,
  update_ssh, merged, update_odoosh, update, delete,
}
use odoo_sheller.Targets.Tidy.{
  BuildsApart, BuildsApart-keep, checked_odoosh-names, Tidy, add-BuildsApart, update-BuildsApart,
}

module _ (w : Wording) (py : Python) where
  -- What may become of the file.
  pub data Step : File → File → Type 0 where
    added :
        {f g : File} {k : Card} (build host : String) (name stage : Option String)
        → add_odoosh w py build host name stage f ≡ inr (g, k)
        → Step f g
    added_ssh :
        {f g : File} {k : Card} (fresh name access launch stage : String)
        → add_ssh w py fresh name access launch stage f ≡ inr (g, k)
        → Step f g
    updated :
        {f g : File} {k : Card} (id : String) (fields : Fields)
        → update w py id fields f ≡ inr (g, k)
        → Step f g
    deleted : {f g : File} (id : String) → delete id f ≡ inr g → Step f g

  -- A file that is written with these builds.
  written : (c : Cards) (g : File) → holds c ≡ g → BuildsApart w c.odoosh → Tidy w g
  written c g e h = subst (Tidy w) e (λ d s.
      let same : c ≡ d = ground arith in subst (λ (x : Cards). BuildsApart w x.odoosh) same h)

  add_odoosh-Tidy :
      (build host : String) (name stage : Option String) (f g : File) (k : Card)
      → Tidy w f
      → add_odoosh w py build host name stage f ≡ inr (g, k)
      → Tidy w g
  unfolding add_odoosh
  add_odoosh-Tidy build host name stage f g k t h = elim (sum-cases (read_file f)) [
    | inl (p, a) ↦ absurd (ground arith)
    | inr (c, a) ↦
        let old = find_build build c.odoosh in
        let fields : OdooshFields w = record {
          name = if blank w py name then known w py old (λ e. e.name) else name;
          build = some build;
          host = some host;
          stage = if is_some stage then stage else known w py old (λ e. e.stage);
        } in
        elim (sum-cases (checked_odoosh w c.odoosh fields none)) [
          | inl (p, b) ↦ absurd (ground arith)
          | inr (e, b) ↦
              let es = e ∷ keep (λ o. not (o.build == build)) c.odoosh in
              let into : holds (record c { odoosh = es }) ≡ g = ground arith in
              let (free, m, named) = checked_odoosh-names w c.odoosh fields none e b in
              let same : e.build ≡ build = ground (arith, named) in
              written (record c { odoosh = es }) g into
                (subst
                  (λ x. BuildsApart w (e ∷ keep (λ (o : OdooshEntry). not (o.build == x)) c.odoosh))
                  same (add-BuildsApart w c.odoosh fields e (t c a) b))
        ]
  ]

  add_ssh-Tidy :
      (fresh name access launch stage : String) (f g : File) (k : Card)
      → Tidy w f
      → add_ssh w py fresh name access launch stage f ≡ inr (g, k)
      → Tidy w g
  unfolding add_ssh
  add_ssh-Tidy fresh name access launch stage f g k t h = elim (sum-cases (read_file f)) [
    | inl (p, a) ↦ absurd (ground arith)
    | inr (c, a) ↦
        let id = concat (ssh_prefix ∷ fresh ∷ []) in
        elim (sum-cases
          (checked_ssh w py c.ssh id (some name) (some access) (some launch) (some stage) none)) [
            | inl (p, b) ↦ absurd (ground arith)
            | inr (e, b) ↦
                let into : holds (record c { ssh = e ∷ c.ssh }) ≡ g = ground arith in
                written (record c { ssh = e ∷ c.ssh }) g into (t c a)
          ]
  ]

  update-Tidy :
      (id : String) (fields : Fields) (f g : File) (k : Card)
      → Tidy w f
      → update w py id fields f ≡ inr (g, k)
      → Tidy w g
  unfolding update
  update-Tidy id fields f g k t h = elim (sum-cases (read_file f)) [
    | inl (p, a) ↦ absurd (ground arith)
    | inr (c, a) ↦ elim (Bool-cases (starts_with id ssh_prefix)) [
      | inl b ↦ ssh c (t c a) (find_ssh id c.ssh) (ground arith)
      | inr b ↦ elim (Option-cases (build_of id)) [
        | inl d ↦ absurd (ground arith)
        | inr (build, d) ↦ odoosh c build (t c a) (find_build build c.odoosh) (ground arith)
      ]
    ]
  ]
    where
      ssh :
          (c : Cards)
          → BuildsApart w c.odoosh
          → (o : Option SshEntry) → update_ssh w py c id fields o ≡ inr (g, k)
          → Tidy w g
      ssh c s none h = cc
      ssh c s (some old) h = elim (Bool-cases (only_keys (ssh_fields w py) fields)) [
        | inr x ↦ absurd (ground arith)
        | inl x ↦
            elim (sum-cases (
              checked_ssh w py c.ssh id (field "name" fields (some old.name))
                (field "access" fields (some old.access)) (field "launch" fields (some old.launch))
                (field "stage" fields (some old.stage)) (some id))) [
                  | inl (p, b) ↦ absurd (ground arith)
                  | inr (e, b) ↦
                      let into : holds (record c { ssh = replace_ssh id e c.ssh }) ≡ g =
                        ground arith in
                      written (record c { ssh = replace_ssh id e c.ssh }) g into s
                ]
      ]

      odoosh :
          (c : Cards) (build : String)
          → BuildsApart w c.odoosh
          → (o : Option OdooshEntry) → update_odoosh w py c build fields o ≡ inr (g, k)
          → Tidy w g
      odoosh c build s none h = cc
      odoosh c build s (some old) h = elim (Bool-cases (only_keys (odoosh_fields w py) fields)) [
        | inr x ↦ absurd (ground arith)
        | inl x ↦
            elim (sum-cases (checked_odoosh w c.odoosh (merged w py fields old) (some build))) [
              | inl (p, b) ↦ absurd (ground arith)
              | inr (e, b) ↦
                  let es = replace_build build e c.odoosh in
                  let into : holds (record c { odoosh = es }) ≡ g = ground arith in
                  written (record c { odoosh = es }) g into
                    (update-BuildsApart w build c.odoosh (merged w py fields old) e s b)
            ]
      ]

  delete-Tidy : (id : String) (f g : File) → Tidy w f → delete id f ≡ inr g → Tidy w g
  unfolding delete
  delete-Tidy id f g t h = elim (sum-cases (read_file f)) [
    | inl (p, a) ↦ absurd (ground arith)
    | inr (c, a) ↦ elim (Bool-cases (starts_with id ssh_prefix)) [
      | inl b ↦
          let kept = keep (λ (e : SshEntry). not (e.id == id)) c.ssh in
          let into : holds (record c { ssh = kept }) ≡ g = ground arith in
          written (record c { ssh = kept }) g into (t c a)
      | inr b ↦ elim (Option-cases (build_of id)) [
        | inl d ↦ absurd (ground arith)
        | inr (build, d) ↦
            let q = λ (e : OdooshEntry). not (e.build == build) in
            let into : holds (record c { odoosh = keep q c.odoosh }) ≡ g = ground arith in
            written (record c { odoosh = keep q c.odoosh }) g into
              (BuildsApart-keep w q c.odoosh (t c a))
      ]
    ]
  ]

  pub data Reach : File → Type 0 where
    started : Reach missing
    next : {f g : File} → Reach f → Step f g → Reach g

  Step-Tidy : {f g : File} → Step f g → Tidy w f → Tidy w g
  Step-Tidy {f} {g} (added build host name stage h) t =
      add_odoosh-Tidy build host name stage f g _ t h
  Step-Tidy {f} {g} (added_ssh fresh name access launch stage h) t =
      add_ssh-Tidy fresh name access launch stage f g _ t h
  Step-Tidy {f} {g} (updated id fields h) t = update-Tidy id fields f g _ t h
  Step-Tidy {f} {g} (deleted id h) t = delete-Tidy id f g t h

  -- In a file that the store alone has written since it was missing, no two odoo.sh cards have the
  -- same build, and no two go by names that differ in case alone, whichever cards were added,
  -- changed and deleted in between.
  pub Reach-Tidy : {f : File} → Reach f → (c : Cards) → read_file f ≡ inr c → BuildsApart w c.odoosh
  Reach-Tidy started c e =
      let none_yet : [] ≡ c.odoosh = ground arith in subst (BuildsApart w) none_yet tt
  Reach-Tidy (next p st) c e = Step-Tidy st (Reach-Tidy p) c e
