-- ===== src/ActivityPoll/Quiet.antt =====
-- After the component is destroyed the poller does nothing that can be seen.
use gatesentry.Shared.{
  ℕ, String, Bool, true, false, List, [], ◌∷◌, ◌≡◌, ◌≢◌, refl, arith, inl, inr, Option-cases, ◌==◌,
  includes, if_cases, get_elem?, ℕ_eq,
}
use gatesentry.ActivityPoll.Settle.{show_stale}
use gatesentry.ActivityPoll.{
  Request, Outcome, Poller, stop_activity, may_load, load_activity, is_live, release, schedule,
  finish, set_props, destroy, settle_at, settle, fire, Event, props, close, unmount, settled, fired,
  step, run,
}

-- What an administrator sees, and how many requests and timers were ever started.
pub record Trace (Item : Type 0) : Type 0 where
  pub activity : List Item
  pub loaded : Bool
  pub error : String
  pub requests : ℕ
  pub timers : ℕ

module _ {Item : Type 0} where
  abbrev pub trace : Poller Item → Trace Item
  trace s = record {
    activity = s.activity;
    loaded = s.loaded;
    error = s.error;
    requests = s.next_request;
    timers = s.next_timer;
  }

  -- The destroyed component, with a given trace.
  abbrev IsDead : Trace Item → Poller Item → Type 0
  IsDead t s = (s.destroyed ≡ true) × (trace s ≡ t)

  load-IsDead : (t : Trace Item) (s : Poller Item) → IsDead t s → IsDead t (load_activity s)
  unfolding load_activity may_load
  load-IsDead t s (dead, same) =
      if_cases (IsDead t) (may_load s) (λ go. absurd (not_go go)) (λ stop. (dead, same))
    where
      not_go : may_load s ≢ true
      not_go go = ground arith

  not_live : (r : Request) (s : Poller Item) → s.destroyed ≡ true → is_live r s ≡ false
  unfolding is_live
  not_live r s dead = rw dead

  schedule-IsDead :
      (t : Trace Item) (r : Request) (s : Poller Item) → IsDead t s → IsDead t (schedule r s)
  unfolding schedule
  schedule-IsDead t r s h = rw (not_live r s h.0) h

  finish-IsDead :
      (t : Trace Item) (r : Request) (o : Outcome Item) (s : Poller Item)
      → IsDead t s
      → IsDead t (finish r o s)
  unfolding finish release
  finish-IsDead t r o s h = rw (show_stale r o s (not_live r s h.0)) (
      if_cases (λ x. IsDead t (schedule r x)) (r.generation == s.generation)
        (λ fresh. schedule-IsDead t r _ h) (λ stale. schedule-IsDead t r s h))

  settle-IsDead :
      (t : Trace Item) (i : ℕ) (o : Outcome Item) (s : Poller Item)
      → IsDead t s
      → IsDead t (settle i o s)
  unfolding settle settle_at
  settle-IsDead t i o s h = elim (Option-cases (get_elem? s.in_flight i)) [
    | inl nothing ↦ rw (nothing, settle_at) h
    | inr (r, found) ↦ rw (found, settle_at) (finish-IsDead t r o _ h)
  ]

  props-IsDead :
      (t : Trace Item) (shown : Bool) (d : String) (s : Poller Item)
      → IsDead t s
      → IsDead t (set_props shown d s)
  unfolding set_props
  props-IsDead t shown d s h =
      if_cases (IsDead t) s.destroyed (λ dead. h) (λ mounted. absurd (both h.0 mounted))
    where
      both : s.destroyed ≡ true → s.destroyed ≡ false → ⊥
      both p q = cc

  fire-IsDead : (t : Trace Item) (n : ℕ) (s : Poller Item) → IsDead t s → IsDead t (fire n s)
  unfolding fire
  fire-IsDead t n s h =
      if_cases (IsDead t) (includes s.pending n) (λ found. load-IsDead t _ h) (λ missed. h)

  step-IsDead :
      (t : Trace Item) (e : Event Item) (s : Poller Item) → IsDead t s → IsDead t (step e s)
  unfolding step
  step-IsDead t (props shown d) s h = props-IsDead t shown d s h
  step-IsDead t close s h = unfold stop_activity in h
  step-IsDead t unmount s h = unfold destroy stop_activity in (refl, h.1)
  step-IsDead t (settled i o) s h = settle-IsDead t i o s h
  step-IsDead t (fired n) s h = fire-IsDead t n s h

  run-IsDead :
      (t : Trace Item) (es : List (Event Item)) (s : Poller Item) → IsDead t s → IsDead t (run es s)
  unfolding run
  run-IsDead t [] s h = h
  run-IsDead t (e ∷ es) s h = run-IsDead t es (step e s) (step-IsDead t e s h)

  -- Once the component is destroyed, no later event, however it settles a waiting request or fires
  -- a timer, changes what is shown, sends a request or sets a timer.
  pub run-destroy :
      (es : List (Event Item)) (s : Poller Item) → trace (run es (destroy s)) ≡ trace s
  run-destroy es s =
      (run-IsDead (trace s) es (destroy s) (unfold destroy stop_activity in (refl, refl))).1
