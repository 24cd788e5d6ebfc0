-- ===== src/AgentCommit/Switching.antt =====
-- What switching a container on or off in odoo_sheller/agent_commit.py does to every container.
use odoo_sheller.Common.{
  ◌≤◌, String, ◌≡◌, refl, sym, ap, ◌∙◌, subst, ◌≢◌, ◌⊎◌, inl, inr, Bool, true, false, not, ◌||◌,
  none, some, List, [], ◌∷◌, ◌++◌, arith, eq_iff, if◌then◌else◌, ◌==◌, string_eq, nat_eq,
  Bool-cases, Option-cases, is_some, sum-cases, length, any, keep,
}
use odoo_sheller.AgentCommit.{
  Switch, SwitchFile, holds, SwitchError, is_container_name, read_switches, find_switch, is_on,
  write_json, turn_on, turn_off,
}

any-append :
    {A : Type 0} (p : A → Bool) (xs ys : List A) → any p (xs ++ ys) ≡ (any p xs || any p ys)
any-append p [] ys = refl
any-append p (x ∷ xs) ys = ap (λ (b : Bool). p x || b) (any-append p xs ys) ∙ ground arith

found_is_on :
    (c : String) (es : List Switch) → any (λ e. e.container == c) es ≡ is_some (find_switch c es)
found_is_on c [] = refl
found_is_on c (e ∷ es) = ground (arith, found_is_on c es)

kept_off :
    (c : String) (es : List Switch)
    → any (λ e. e.container == c) (keep (λ e. not (e.container == c)) es) ≡ false
kept_off c [] = refl
kept_off c (e ∷ es) = elim (Bool-cases (e.container == c)) [
  | inl k ↦ rw k (kept_off c es)
  | inr k ↦ rw (k, k) (kept_off c es)
]

kept_others :
    (c d : String) (es : List Switch)
    → d ≢ c
    → any (λ e. e.container == d) (keep (λ e. not (e.container == c)) es)
      ≡ any (λ e. e.container == d) es
kept_others c d [] n = refl
kept_others c d (e ∷ es) n = elim (Bool-cases (e.container == c)) [
  | inl k ↦
      let other : e.container == d ≡ false =
        ground (arith, eq_iff e.container c, eq_iff e.container d) in
      rw (k, other) (kept_others c d es n)
  | inr k ↦ rw k (ap (λ (b : Bool). e.container == d || b) (kept_others c d es n))
]

keep-length : {A : Type 0} (q : A → Bool) (xs : List A) → length (keep q xs) ≤ length xs
keep-length q [] = omega arith
keep-length q (x ∷ xs) = elim (Bool-cases (q x)) [
  | inl e ↦ rw e (omega (arith, keep-length q xs))
  | inr e ↦ rw e (omega (arith, keep-length q xs))
]

-- If nothing was dropped, the container was not on.
same_length :
    (c : String) (es : List Switch)
    → length (keep (λ e. not (e.container == c)) es) ≡ length es
    → any (λ e. e.container == c) es ≡ false
same_length c [] h = refl
same_length c (e ∷ es) h = elim (Bool-cases (e.container == c)) [
  | inl k ↦
      absurd (omega (arith, keep-length (λ (e : Switch). not (e.container == c)) es, (rw k at h)))
  | inr k ↦ rw k (same_length c es (let g = rw k at h in omega (arith, g)))
]

find-append :
    (c : String) (e : Switch) (es : List Switch)
    → find_switch c es ≡ none
    → e.container == c ≡ true
    → find_switch c (es ++ e ∷ []) ≡ some e
find-append c e [] h k = ground arith
find-append c e (x ∷ es) h k = ground (arith, find-append c e es)

named : (c : String) → is_container_name c ≡ true → c == "" ≡ false
unfolding is_container_name
named c h = elim (Bool-cases (c == "")) [
  | inr e ↦ e
  | inl e ↦
      let empty : c ≡ "" = ground (arith, eq_iff c "") in
      let wrong : is_container_name "" ≡ true = subst (λ x. is_container_name x ≡ true) empty h in
      absurd (ground arith)
]

-- What `is_on` says of a file that was read.
on_list : String → List Switch → SwitchError ⊎ Bool
on_list d es = if d == "" then inr false else inr (any (λ e. e.container == d) es)

is_on-read :
    (d : String) (f : SwitchFile) (es : List Switch)
    → read_switches f ≡ inr es
    → is_on (some d) f ≡ on_list d es
unfolding is_on on_list
is_on-read d f es h = rw h refl

on_list-same :
    (d : String) (es fs : List Switch)
    → any (λ e. e.container == d) es ≡ any (λ e. e.container == d) fs
    → on_list d es ≡ on_list d fs
unfolding on_list
on_list-same d es fs h = rw h refl

all_kept :
    (c : String) (es : List Switch)
    → any (λ e. e.container == c) es ≡ false
    → length (keep (λ e. not (e.container == c)) es) ≡ length es
all_kept c [] h = refl
all_kept c (e ∷ es) h = elim (Bool-cases (e.container == c)) [
  | inl k ↦ absurd (ground arith)
  | inr k ↦ rw k (let g = rw k at h in omega (arith, all_kept c es g))
]

write_json-eq-inr :
    {A : Type 0} (can_write : Bool) {a b : A} → write_json can_write a ≡ inr b → a ≡ b
write_json-eq-inr true h = ground (arith, h)
write_json-eq-inr false h = absurd (cc)

-- Once a container is switched on, where the call succeeds, it is on, every other container is as
-- it was, and switching it on again changes neither the file nor the time it was first set.
pub turn_on-is_on :
    (can_write later_too : Bool) (c now later : String) (f g : SwitchFile) (e : Switch)
    → turn_on can_write c now f ≡ inr (e, g)
    → (is_on (some c) g ≡ inr true)
      × ((d : String) → d ≢ c → is_on (some d) g ≡ is_on (some d) f)
      × (turn_on later_too c later g ≡ inr (e, g))
unfolding turn_on
turn_on-is_on can_write later_too c now later f g e h = elim (Bool-cases (is_container_name c)) [
  | inr k ↦ absurd (ground arith)
  | inl k ↦ elim (sum-cases (read_switches f)) [
    | inl (p, a) ↦ absurd (ground arith)
    | inr (es, a) ↦ elim (Option-cases (find_switch c es)) [
      | inr (old, b) ↦
          let same : f ≡ g = ground arith in
          let kept : record { container = c; since = old.since } ≡ e = ground arith in
          let on : is_on (some c) f ≡ inr true =
            is_on-read c f es a ∙ (unfold on_list in rw (named c k, found_is_on c es, b) refl) in
          (
            subst (λ x. is_on (some c) x ≡ inr true) same on,
            λ d n. subst (λ x. is_on (some d) x ≡ is_on (some d) f) same refl,
            subst (λ x. turn_on later_too c later x ≡ inr (e, x)) same
                (unfold turn_on in ground (arith, kept)),
          )
      | inl b ↦
          let new : Switch = record { container = c; since = now } in
          let made_file : Switch × SwitchFile = (new, holds (es ++ new ∷ [])) in
          let written : write_json can_write made_file ≡ inr (e, g) = ground arith in
          let both : made_file ≡ (e, g) = write_json-eq-inr can_write written in
          let same : holds (es ++ new ∷ []) ≡ g = ap (λ p. p.1) both in
          let made : new ≡ e = ap (λ p. p.0) both in
          let read : read_switches g ≡ inr (es ++ new ∷ []) = ap read_switches (sym same) in
          let there : any (λ x. x.container == c) (es ++ new ∷ []) ≡ true =
            any-append (λ x. x.container == c) es (new ∷ []) ∙ ground (arith, eq_iff c c) in
          (
            is_on-read c g (es ++ new ∷ []) read ∙ (unfold on_list in rw (named c k, there) refl),
            λ d n.
                let other : c == d ≡ false = ground (arith, eq_iff c d) in
                is_on-read d g (es ++ new ∷ []) read
                ∙ on_list-same d (es ++ new ∷ []) es
                    (any-append (λ x. x.container == d) es (new ∷ []) ∙ rw other (ground arith))
                ∙ sym (is_on-read d f es a),
            let found = find-append c new es b (ground (arith, eq_iff c c)) in
                (unfold turn_on in rw (k, read, found) (ground (arith, made))),
          )
    ]
  ]
]

-- Once a container with a name is switched off, where the call succeeds, it is off, every other
-- container is as it was, and the answer says whether it was on.
pub turn_off-is_on :
    (can_write : Bool) (c : String) (f g : SwitchFile) (was : Bool)
    → c ≢ ""
    → turn_off can_write c f ≡ inr (was, g)
    → (is_on (some c) g ≡ inr false)
      × ((d : String) → d ≢ c → is_on (some d) g ≡ is_on (some d) f)
      × (is_on (some c) f ≡ inr was)
unfolding turn_off
turn_off-is_on can_write c f g was n h = elim (sum-cases (read_switches f)) [
  | inl (p, a) ↦ absurd (ground arith)
  | inr (es, a) ↦
      let q = λ (x : Switch). not (x.container == c) in
      let filled : c == "" ≡ false = ground (arith, eq_iff c "") in
      elim (Bool-cases (length (keep q es) == length es)) [
        | inl b ↦
            let same : f ≡ g = ground arith in
            let no : false ≡ was = ground arith in
            let off : is_on (some c) f ≡ inr false =
              is_on-read c f es a
              ∙ (unfold on_list in rw (filled, same_length c es (ground (arith, b))) refl) in
            (
              subst (λ x. is_on (some c) x ≡ inr false) same off,
              λ d m. subst (λ x. is_on (some d) x ≡ is_on (some d) f) same refl,
              rw (← no) off,
            )
        | inr b ↦
            let left : Bool × SwitchFile = (true, holds (keep q es)) in
            let written : write_json can_write left ≡ inr (was, g) = ground arith in
            let both : left ≡ (was, g) = write_json-eq-inr can_write written in
            let same : holds (keep q es) ≡ g = ap (λ p. p.1) both in
            let yes : true ≡ was = ap (λ p. p.0) both in
            let read : read_switches g ≡ inr (keep q es) = ap read_switches (sym same) in
            let there : any (λ x. x.container == c) es ≡ true = ground (arith, all_kept c es) in
            (
              is_on-read c g (keep q es) read ∙ (unfold on_list in rw (filled, kept_off c es) refl),
              λ d m.
                  is_on-read d g (keep q es) read
                  ∙ on_list-same d (keep q es) es (kept_others c d es m)
                  ∙ sym (is_on-read d f es a),
              is_on-read c f es a ∙ (unfold on_list in rw (filled, there) (ground (arith, yes))),
            )
      ]
]
