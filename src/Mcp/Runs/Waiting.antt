-- ===== src/Mcp/Runs/Waiting.antt =====
-- That `os_test_result` of odoo_sheller/mcp.py comes back, and with what.
use odoo_sheller.Common.{
  ℕ, zero, suc, ◌+◌, ◌*◌, ◌≤◌, ◌≡◌, refl, sym, ap, ◌∙◌, subst, inl, inr, Bool, true, false, Option,
  none, some, [], arith, leb, Bool-cases, Option-cases, is_some,
}
use odoo_sheller.Mcp.{Reply, refused, got, text}
use odoo_sheller.Mcp.Results.{RunFrame}
use odoo_sheller.Mcp.Runs.{
  test_result_poll, Feed, runs_of, last_of, settled, Waited, failed, done, lost, going,
  Surroundings, look, wait_for, os_test_result,
}
use odoo_sheller.Mcp.Results.Past.{PastRun, history_run}

module _ {D : Type 0} (w : Surroundings D) where
  -- Time does not run back, and a sleep takes as long as it says.
  pub record Runs : Type 0 where
    pub history_later : (d : D) → w.time d ≤ w.time (w.history d).0
    pub sleep_later : (d : D) → w.time d + test_result_poll ≤ w.time (w.sleep d)

  -- The places from which the loop looks.
  pub data Visited (d : D) : D → Type 0 where
    here : Visited d d
    later : {e : D} → Visited d e → Visited d (w.sleep (w.history e).0)

  -- What a look must have found for the loop to end so.
  unfoldable pub Seen : Waited → Reply Feed → Type 0
  Seen (failed why) reply = reply ≡ refused why
  Seen (done h) reply =
      (f : Feed) × (e : PastRun) × (r : RunFrame) × (reply ≡ got f)
      × (last_of (runs_of f.entries) ≡ some e)
      × (e.result ≡ some r)
      × (h ≡ history_run e)
  Seen lost reply = (f : Feed) × (reply ≡ got f) × (settled f ≡ none) × (f.gone ≡ true)
  Seen going reply = (f : Feed) → reply ≡ got f → (settled f ≡ none) × (f.gone ≡ false)

  look-late : (reply : Reply Feed) → is_some (look reply true) ≡ true
  unfolding look
  look-late (refused why) = refl
  look-late (text words) = refl
  look-late (got f) = ground arith

  -- The loop goes on only before its deadline.
  going_on : (reply : Reply Feed) (late : Bool) → look reply late ≡ none → late ≡ false
  going_on reply true e = absurd (cc (look-late reply, e))
  going_on reply false e = refl

  settled_run :
      (f : Feed) (e : PastRun)
      → settled f ≡ some e
      → (r : RunFrame) × (last_of (runs_of f.entries) ≡ some e) × (e.result ≡ some r)
  unfolding settled
  settled_run f e h = elim (Option-cases (last_of (runs_of f.entries))) [
    | inl no_run ↦ absurd (ground (arith, h, no_run))
    | inr (last, is_last) ↦ elim (Option-cases last.result) [
      | inl open_run ↦ absurd (ground (arith, h, is_last, open_run))
      | inr (r, result) ↦
          let same : last ≡ e = ground (arith, h, is_last, result) in
          (r, is_last ∙ ap some same, ap (λ q. q.result) (sym same) ∙ result)
    ]
  ]

  feed_of : Reply Feed → Feed
  feed_of (got f) = f
  feed_of _ = record { entries = []; gone = false }

  feed-Seen : (f : Feed) (late : Bool) (o : Waited) → look (got f) late ≡ some o → Seen o (got f)
  unfolding look Seen feed_of
  feed-Seen f late o h = elim (Option-cases (settled f)) [
    | inl unsettled ↦ elim (Bool-cases f.gone) [
      | inl dead ↦
          let is_lost : lost ≡ o = ground (arith, h, unsettled, dead) in
          subst (λ q. Seen q (got f)) is_lost (f, refl, unsettled, dead)
      | inr alive ↦
          let is_going : going ≡ o = ground (arith, h, unsettled, alive) in
          subst (λ q. Seen q (got f)) is_going
            (λ g same.
              let own : f ≡ g = ap feed_of same in
              subst (λ x. (settled x ≡ none) × (x.gone ≡ false)) own (unsettled, alive))
    ]
    | inr (e, is_settled) ↦
        let (r, is_last, result) = settled_run f e is_settled in
        let is_done : done (history_run e) ≡ o = ground (arith, h, is_settled) in
        subst (λ q. Seen q (got f)) is_done (f, e, r, refl, is_last, result, refl)
  ]

  look-Seen :
      (reply : Reply Feed) (late : Bool) (o : Waited) → look reply late ≡ some o → Seen o reply
  unfolding look Seen
  look-Seen (got f) late o h = feed-Seen f late o h
  look-Seen (refused why) late o h =
      let is_failed : failed why ≡ o = cc in subst (λ q. Seen q (refused why)) is_failed refl
  look-Seen (text words) true o h =
      let is_going : going ≡ o = cc in
      subst (λ q. Seen q (text words)) is_going (λ f same. absurd (cc))
  look-Seen (text words) false o h = absurd (cc)

  -- Where the loop comes back, and what it saw there.
  unfoldable pub Returned : D → Option Waited → Type 0
  Returned d result =
      (o : Waited) × (e : D) × (result ≡ some o) × Visited d e × Seen o (w.history e).1

  wait_for-Returned :
      (f deadline : ℕ) (d start : D)
      → Runs
      → Visited start d
      → deadline ≤ w.time d + f * test_result_poll
      → Returned start (wait_for w (suc f) deadline d)
  unfolding wait_for Returned
  wait_for-Returned zero deadline d start runs place h =
      let after = (w.history d).0 in
      let reply = (w.history d).1 in
      let late = leb deadline (w.time after) in
      let over : late ≡ true = ground (arith, h, runs.history_later d) in
      elim (Option-cases (look reply late)) [
        | inl e ↦ absurd (cc (going_on reply late e, over))
        | inr (o, e) ↦ (o, d, rw (e, wait_for) refl, place, look-Seen reply late o e)
      ]
  wait_for-Returned (suc f) deadline d start runs place h =
      let after = (w.history d).0 in
      let reply = (w.history d).1 in
      let late = leb deadline (w.time after) in
      let next = w.sleep after in
      elim (Option-cases (look reply late)) [
        | inl e ↦
            let (o, e', result, visited, seen) =
              wait_for-Returned f deadline next start runs (later place)
                (omega (arith, h, runs.history_later d, runs.sleep_later after)) in
            (o, e', rw (e, wait_for) result, visited, seen)
        | inr (o, e) ↦ (o, d, rw (e, wait_for) refl, place, look-Seen reply late o e)
      ]

  -- Whatever the budget of a call, `os_test_result` comes back, after at most one look more than it
  -- takes polls to use the budget up: it says that the run is done exactly
  -- with the last run of the feed that it then has, whose result is there; that the run is lost only
  -- where the session is gone and that result missing; and that it is still going only where the
  -- feed, if there is one, shows neither.
  pub os_test_result-Returned :
      (call_budget polls : ℕ) (d : D)
      → Runs
      → call_budget ≤ polls * test_result_poll
      → Returned d (os_test_result w call_budget (suc polls) d)
  unfolding os_test_result
  os_test_result-Returned call_budget polls d runs enough =
      wait_for-Returned polls (w.time d + call_budget) d d runs here (omega (arith, enough))
