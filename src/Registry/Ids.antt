-- ===== src/Registry/Ids.antt =====
-- The ids of sessions in odoo_sheller/registry.py. `draws` are the answers of `draw`, one after
-- another.
use odoo_sheller.Common.{
  ℕ, zero, suc, ◌+◌, ◌≤◌, ◌<◌, code, String, ◌≡◌, refl, ap, ◌∙◌, ◌≢◌, inl, inr, Bool, true, false,
  not, ◌&&◌, ◌||◌, Option, none, some, List, ◌∷◌, ◌++◌, arith, leb, if◌then◌else◌, ◌==◌,
  nat_beq_iff, string_eq, nat_eq, Bool-cases, All, all_chars, is_digit, has_char, cut_from,
}
use odoo_sheller.Journal.Files.{journal_path, session_id_of, find_journal}
use odoo_sheller.Journal.Files.Names.{find_journal-journal_path}

-- `\d+`, on hex digits
unfoldable pub is_digits : String → Bool
is_digits s = not (s == "") && all_chars is_digit s

-- `_NUMBER_SHAPED.fullmatch(text)`
unfoldable pub is_number_shaped : String → Bool
is_number_shaped s =
    let (front, behind) = cut_from b'e' s in
    is_digits front && (elim behind [ none ↦ true | some t ↦ is_digits t ])

-- The loop of `new_session_id`, from draw `i` on; `none` if the fuel ends first.
unfoldable pub new_session_id : ℕ → (ℕ → String) → ℕ → Option String
new_session_id zero draws i = none
new_session_id (suc fuel) draws i =
    let again = new_session_id fuel draws (suc i) in
    if is_number_shaped (draws i) then again else some (draws i)

-- The draw that is taken: the first one from `i` on that no one reads as a number.
unfoldable pub IsFirst : (ℕ → String) → ℕ → ℕ → Type 0
IsFirst draws i n =
    (is_number_shaped (draws n) ≡ false)
    × ((m : ℕ) → i ≤ m → m < n → is_number_shaped (draws m) ≡ true)

IsFirst-suc :
    (draws : ℕ → String) (i n : ℕ)
    → is_number_shaped (draws i) ≡ true
    → IsFirst draws (suc i) n
    → IsFirst draws i n
unfolding IsFirst
IsFirst-suc draws i n h (fine, before) = (
  fine,
  λ m le lt. elim (Bool-cases (m == i)) [
    | inl e ↦ ap (λ k. is_number_shaped (draws k)) ((nat_beq_iff m i).0 e) ∙ h
    | inr e ↦ before m (ground (arith, e, le)) lt
  ],
)

-- Whenever some draw `j` is not shaped like a number, the loop ends by then: with fuel for the draws
-- up to `j` it returns the first draw that is not, and so never an id that reads as a number.
pub new_session_id-IsFirst :
    (fuel : ℕ) (draws : ℕ → String) (i j : ℕ)
    → is_number_shaped (draws j) ≡ false
    → i ≤ j
    → j < i + fuel
    → (n : ℕ) × (n ≤ j) × (new_session_id fuel draws i ≡ some (draws n)) × IsFirst draws i n
unfolding new_session_id
new_session_id-IsFirst zero draws i j h le lt = absurd (omega (arith, le, lt))
new_session_id-IsFirst (suc fuel) draws i j h le lt =
    elim (Bool-cases (is_number_shaped (draws i))) [
      | inl e ↦
          let apart : j ≢ i =
            λ same. ground (arith, h, e, ap (λ k. is_number_shaped (draws k)) same) in
          let (n, low, got, first) =
            new_session_id-IsFirst fuel draws (suc i) j h (omega (arith, le, apart))
              (omega (arith, lt)) in
          (n, low, ground (arith, e, got), IsFirst-suc draws i n e first)
      | inr e ↦ (
        i,
        le,
        ground (arith, e),
        unfold IsFirst in (e, λ m low lt. absurd (omega (arith, low, lt))),
      )
    ]

-- Twelve hex digits have no dash.
unfoldable pub is_hex : ℕ → Bool
is_hex c = is_digit c || (leb b'a' c && leb c b'f')

hex-no_dash : (s : String) → all_chars is_hex s ≡ true → has_char b'-' s ≡ false
unfolding is_hex
hex-no_dash String.[] h = refl
hex-no_dash (String.◌∷◌ c s) h =
    let here : is_hex (code c) ≡ true = ground (arith, h) in
    let rest = hex-no_dash s (ground (arith, h)) in ground (arith, here, rest)

-- A session that got its id from draws of hex digits, one of which is not shaped like a number, is
-- found again by that id: the loop ends with an id, and looking for it in a directory that holds the
-- session's journal and otherwise only journals of other ids gives that journal.
pub new_session_id-find_journal :
    (fuel j : ℕ) (draws : ℕ → String) (container : String) (database : Option String)
    (stamp : String) (before after : List String)
    → ((n : ℕ) → all_chars is_hex (draws n) ≡ true)
    → is_number_shaped (draws j) ≡ false
    → j < fuel
    → ((n : ℕ) → n ≤ j → All (λ name. session_id_of name ≢ draws n) before)
    → (id : String) × (new_session_id fuel draws 0 ≡ some id)
      × (is_number_shaped id ≡ false)
      × (find_journal (before ++ journal_path id container database stamp ∷ after) id
          ≡ some (journal_path id container database stamp))
unfolding IsFirst
new_session_id-find_journal fuel j draws container database stamp before after hex h lt others =
    let (n, low, got, (fine, first)) =
      new_session_id-IsFirst fuel draws 0 j h (omega arith) (omega (arith, lt)) in
    (
      draws n,
      got,
      fine,
      find_journal-journal_path (draws n) container database stamp before after
          (hex-no_dash (draws n) (hex n)) (others n low),
    )
