-- ===== src/TestLog/Bounded/Lines.antt =====
-- What one line from Hoot does keeps the bounds, in odoo_sheller/session.py.
use odoo_sheller.Common.{
  String, ◌≡◌, sym, ap, subst, ◌⊎◌, inl, inr, true, false, not, ◌&&◌, ◌||◌, none, some, [], ◌∷◌,
  ◌++◌, arith, ltb, if◌then◌else◌, ◌==◌, string_eq, nat_eq, Bool-cases, Option-cases, length,
  contains, lookup, length-append,
}
use odoo_sheller.TestLog.{Python, hoot_reasons, Hoot, Reading}
use odoo_sheller.TestLog.Reader.{
  the_hoot, keys, add_once, note_running, note_failed, note_dropped_filter,
}
use odoo_sheller.TestLog.Bounded.{Apart-add_once, IsSmall, HasRoom, IsBounded}

module _ (py : Python) where
  pub the_hoot-IsSmall : (s : Reading) → IsBounded s → IsSmall (some (the_hoot s))
  unfolding IsBounded IsSmall
  the_hoot-IsSmall s (a, b, c, d) = elim (Option-cases s.hoot) [
    | inl e ↦ rw e (tt, tt, tt, omega arith, tt)
    | inr (h, e) ↦ rw e (subst IsSmall e a)
  ]

  -- Hoot's part is replaced while no reasons are being read.
  unfoldable pub with_hoot : Hoot → Reading → Reading
  with_hoot h s = record s { hoot = some h }

  pub with_hoot-IsBounded :
      (h : Hoot) (s : Reading)
      → IsSmall (some h)
      → s.reason_for ≡ none
      → IsBounded s
      → IsBounded (with_hoot h s)
  unfolding IsBounded with_hoot HasRoom
  with_hoot-IsBounded h s k e (a, b, c, d) = (k, rw e tt, c, d)

  pub note_failed-IsBounded :
      (name : String) (h : Hoot) (s : Reading)
      → IsSmall (some h)
      → s.reason_for ≡ none
      → IsBounded s
      → IsBounded (note_failed py name h s)
  unfolding IsBounded note_failed HasRoom IsSmall
  note_failed-IsBounded name h s (p, q, r, l, t) e (a, b, c, d) =
      let noted = Apart-add_once h.failed_tests name p in
      elim (Bool-cases
        (not (contains (keys h.reasons) name) && ltb (length h.reasons) hoot_reasons)) [
          | inl k ↦ rw k ((noted, q, r, l, t), (ground (arith, k), ground (arith, k)), c, d)
          | inr k ↦ rw k ((noted, q, r, l, t), rw e tt, c, d)
        ]

  pub note_running-IsBounded :
      (name : String) (s : Reading) → IsBounded s → IsBounded (note_running py name s)
  unfolding note_running IsBounded
  note_running-IsBounded name s k = elim (Option-cases s.progress) [
    | inl e ↦ rw e k
    | inr (p, e) ↦ rw e k
  ]

  -- The filter that Hoot dropped, by the name it was asked for.
  noted_filter : String → Hoot → Reading → Reading
  noted_filter name h s = record s {
    hoot = some (record h { unknown_filters = add_once name h.unknown_filters });
  }

  noted_filter-IsBounded :
      (name : String) (h : Hoot) (s : Reading)
      → IsSmall (some h)
      → s.reason_for ≡ none
      → IsBounded s
      → IsBounded (noted_filter name h s)
  unfolding noted_filter IsBounded HasRoom IsSmall
  noted_filter-IsBounded name h s (p, q, r, l, t) e (a, b, c, d) =
      ((p, Apart-add_once h.unknown_filters name q, r, l, t), rw e tt, c, d)

  stop_run : String → Reading → Reading
  stop_run name s = record s { stopping = true; interrupts = s.interrupts ++ name ∷ [] }

  stop_run-IsBounded :
      (name : String) (s : Reading) → s.stopping ≡ false → IsBounded s → IsBounded (stop_run name s)
  unfolding stop_run IsBounded
  stop_run-IsBounded name s go (a, b, c, d) = (
    a,
    b,
    (λ never. absurd (ground (arith, never))),
    ground (arith, ap length (c go), length-append s.interrupts (name ∷ [])),
  )

  dropped-cases :
      (id : String) (h : Hoot) (s : Reading)
      → (name : String) × ((note_dropped_filter py id h s ≡ noted_filter name h s)
          ⊎ ((asked : String) × (s.stopping ≡ false)
              × (note_dropped_filter py id h s ≡ stop_run asked (noted_filter name h s))))
  unfolding note_dropped_filter noted_filter stop_run
  dropped-cases id h s = elim (Option-cases (lookup id s.filters)) [
    | inl k ↦ (id, inl (ground (arith, k)))
    | inr (name, k) ↦ elim (Bool-cases (s.stopping || not s.has_pid)) [
      | inl stop ↦ ((if name == "" then id else name), inl (ground (arith, k, stop)))
      | inr go ↦
          ((if name == "" then id else name), inr (name, ground (arith, go), ground (arith, k, go)))
    ]
  ]

  pub note_dropped_filter-IsBounded :
      (id : String) (h : Hoot) (s : Reading)
      → IsSmall (some h)
      → s.reason_for ≡ none
      → IsBounded s
      → IsBounded (note_dropped_filter py id h s)
  note_dropped_filter-IsBounded id h s small e k =
      let (name, cases) = dropped-cases id h s in
      let noted = noted_filter-IsBounded name h s small e k in
      elim cases [
        | inl same ↦ subst IsBounded (sym same) noted
        | inr (asked, go, same) ↦
            subst IsBounded (sym same)
              (stop_run-IsBounded asked (noted_filter name h s) (unfold noted_filter in go) noted)
      ]
