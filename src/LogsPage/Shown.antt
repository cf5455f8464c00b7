-- ===== src/LogsPage/Shown.antt =====
-- Which query the page follows, and what it shows when a call fails.
use gatesentry.Shared.{
  String, Bool, true, false, Option, none, some, ◌≡◌, ◌∙◌, refl, inr, ◌&&◌, not, ◌==◌, if_cases,
  String_eq, arith,
}
use mathlib.Core.Bool.{false≢true}
use gatesentry.Refresh.{finally}
use gatesentry.Refresh.Alive.{IsLive}
use gatesentry.LogsPage.{
  Page, Event, type_search, select_action, decision_reply, build_query, refresh_decisions,
  next_filter, follow_filter, loaded, step,
}

-- Does the user type into the search field, which starts no call?
abbrev pub is_typing : Event → Bool
is_typing (type_search v) = true
is_typing _ = false

module _ (encode : String → String) where
  -- The loop is live and its call asks for the filters of the page, or another one follows; the reactive
  -- statement has seen the selects.
  abbrev pub FollowsFilters : Page → Type 0
  FollowsFilters p =
      IsLive (λ k. k ≡ build_query encode p) p.destroyed p.decision_loop
      × (next_filter encode p ≡ p.active_filter)

  -- What a page keeps.
  abbrev Keeps : Page → Page → Type 0
  Keeps p q =
      (q.decisions ≡ p.decisions)
      × (q.load_error ≡ p.load_error)
      × (q.initial_loaded ≡ p.initial_loaded)
      × (q.action_filter ≡ p.action_filter)

  follow-Keeps : (p : Page) → Keeps p (follow_filter encode p)
  unfolding follow_filter refresh_decisions
  follow-Keeps p =
      if_cases (Keeps p) (not (next_filter encode p == p.active_filter))
        (λ new. (refl, refl, refl, refl)) (λ old. (refl, refl, refl, refl))

  failed-Keeps :
      (r : Option String) (message : String) (p : Page)
      → p.initial_loaded ≡ true
      → Keeps p (loaded encode r (inr message) p)
  failed-Keeps none message p done = (refl, refl, refl, refl)
  failed-Keeps (some query) message p done =
      if_cases
        (λ (q : Page).
          Keeps p (record q {
            decision_loop = finally p.destroyed (build_query encode p) p.decision_loop;
          }))
        (not p.destroyed && not p.initial_loaded)
        (λ first. absurd (false≢true (ground (arith, first, done))))
        (λ later. (refl, refl, refl, refl))

  -- Once decisions were loaded, a call that fails after another action was chosen leaves the decisions of the
  -- old filter on the page, under the new filter and without a new error.
  pub decision_reply-silent :
      (p : Page) (action message : String)
      → p.initial_loaded ≡ true
      → let q = step encode (decision_reply (inr message)) (step encode (select_action action) p) in
        (q.action_filter ≡ action) × (q.decisions ≡ p.decisions) × (q.load_error ≡ p.load_error)
  unfolding step
  decision_reply-silent p action message done =
      let chosen = follow_filter encode (record p { action_filter = action }) in
      let (d, l, i, a) = follow-Keeps (record p { action_filter = action }) in
      let (d', l', i', a') =
        failed-Keeps chosen.decision_loop.requested message chosen (i ∙ done) in
      (a' ∙ a, d' ∙ d, l' ∙ l)
