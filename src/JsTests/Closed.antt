-- ===== src/JsTests/Closed.antt =====
-- What odoo_sheller/js_tests.py says of a session and of a run.
use odoo_sheller.Common.{
  ℕ, ◌≤◌, ◌<◌, String, ◌≡◌, refl, ap, ◌∙◌, ◌↔◌, inl, inr, true, false, not, ◌&&◌, Option, none,
  some, arith, string_eq, nat_eq, Bool-cases, is_some, contains,
}
use odoo_sheller.JsTests.{
  reasons, runner_for, verified, Found, nothing, looked, is_hoot, obstacle, capability,
}

-- A reason is one of the closed list.
unfoldable pub IsReason : Option String → Type 0
IsReason none = Unit
IsReason (some r) = contains reasons r ≡ true

obstacle-IsReason : (found : Found) → IsReason (obstacle found)
unfolding obstacle IsReason
obstacle-IsReason nothing = refl
obstacle-IsReason (looked true chrome websocket) = refl
obstacle-IsReason (looked false none websocket) = refl
obstacle-IsReason (looked false (some chrome) false) = refl
obstacle-IsReason (looked false (some false) true) = refl
obstacle-IsReason (looked false (some true) true) = tt

runner_for-hoot :
    (major : Option ℕ)
    → is_hoot (runner_for major) ≡ true
    → (n : ℕ) × (major ≡ some n) × (18 ≤ n) × (n < 21)
unfolding runner_for is_hoot
runner_for-hoot none h = absurd (ground (arith, h))
runner_for-hoot (some m) h = (m, refl, ground (arith, h), ground (arith, h))

runner_for-range : (n : ℕ) → 18 ≤ n → n < 21 → is_hoot (runner_for (some n)) ≡ true
unfolding runner_for is_hoot
runner_for-range n a b = ground (arith, a, b)

obstacle-none : (found : Found) → obstacle found ≡ none → found ≡ looked false (some true) true
unfolding obstacle
obstacle-none nothing h = absurd (ground (arith, h))
obstacle-none (looked true chrome websocket) h = absurd (ground (arith, h))
obstacle-none (looked false none websocket) h = absurd (ground (arith, h))
obstacle-none (looked false (some chrome) false) h = absurd (ground (arith, h))
obstacle-none (looked false (some false) true) h = absurd (ground (arith, h))
obstacle-none (looked false (some true) true) h = refl

available_lem :
    (major : Option ℕ) (found : Found)
    → (capability major found).available
      ≡ (is_hoot (runner_for major) && not (is_some (obstacle found)))
unfolding capability
available_lem major found = ground arith

reason-is_some :
    (major : Option ℕ) (found : Found)
    → is_some (capability major found).reason ≡ not (capability major found).available
unfolding capability
reason-is_some major found = ground arith

reason-IsReason : (major : Option ℕ) (found : Found) → IsReason (capability major found).reason
unfolding capability
reason-IsReason major found = elim (Bool-cases (is_hoot (runner_for major))) [
  | inl e ↦ rw e (obstacle-IsReason found)
  | inr e ↦ rw e (unfold IsReason in refl)
]

tested-range :
    (major : Option ℕ) (found : Found) (n : ℕ)
    → major ≡ some n
    → 18 ≤ n
    → n < 21
    → is_some (capability major found).tested ≡ true
unfolding capability verified
tested-range major found n e a b = rw e (ground (arith, a, b))

-- A session says that it can run a browser suite exactly when its Odoo is 18, 19 or 20 and the
-- bootstrap found both Chrome and the websocket client without an error; otherwise it says why not,
-- and the reason is one of the closed list. Odoo 18, 19 and 20 have an entry in the table of what
-- was verified, so `tested` says something whenever a run is possible.
pub capability_lem :
    (major : Option ℕ) (found : Found)
    → ((capability major found).available ≡ true ↔ (
        ((n : ℕ) × (major ≡ some n) × (18 ≤ n) × (n < 21))
        × (found ≡ looked false (some true) true)))
      × (is_some (capability major found).reason ≡ not (capability major found).available)
      × IsReason (capability major found).reason
      × ((capability major found).available ≡ true → is_some (capability major found).tested ≡ true)
unfolding obstacle
capability_lem major found =
    let said = available_lem major found in
    let in_range : (capability major found).available ≡ true
        → (n : ℕ) × (major ≡ some n) × (18 ≤ n) × (n < 21) =
      λ h. runner_for-hoot major (ground (arith, said, h)) in
    (
      (
        (λ h. (in_range h, obstacle-none found (ground (arith, said, h)))),
        (λ (r, f).
            let (n, e, a, b) = r in
            said
            ∙ ap (λ x. is_hoot (runner_for x) && not (is_some (obstacle found))) e
            ∙ ap (λ x. is_hoot (runner_for (some n)) && not (is_some (obstacle x))) f
            ∙ ap (λ x. x && true) (runner_for-range n a b)),
      ),
      reason-is_some major found,
      reason-IsReason major found,
      λ h. let (n, e, a, b) = in_range h in tested-range major found n e a b,
    )
