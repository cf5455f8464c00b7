-- ===== src/ActivityPoll/Owner.antt =====
-- The activity that the dialog shows is that of the device it shows.
use gatesentry.Shared.{
  ℕ, String, Bool, true, false, Option, none, some, List, [], ◌∷◌, ◌≡◌, ◌⊎◌, refl, inl, inr, subst,
  Option-cases, ◌==◌, ◌&&◌, truthy, String_eq, not, includes, if_cases, get_elem?, ℕ_eq, All,
}
use gatesentry.ActivityPoll.{
  Request, Outcome, arrived, failed, Poller, stop_activity, may_load, load_activity, is_live, show,
  release, schedule, finish, start_activity, load_detail, stop_if_closed, set_props, destroy,
  settle_at, settle, fire, Event, props, close, unmount, settled, fired, step, run, initial,
}
use gatesentry.ActivityPoll.Settle.{is_live_lem}

-- `owner` says of which device an item is.
module _ {Item : Type 0} (owner : Item → String) where
  -- A response to a request for a device holds items of that device.
  abbrev pub AnswersFor : Option Request → Outcome Item → Type 0
  AnswersFor none o = Unit
  AnswersFor (some r) (failed aborted message) = Unit
  AnswersFor (some r) (arrived items) = All (λ x. owner x ≡ r.device) items

  abbrev pub IsHonest : Event Item → Poller Item → Type 0
  IsHonest (settled i o) s = AnswersFor (get_elem? s.in_flight i) o
  IsHonest _ s = Unit

  -- Each response of the run is honest about its request.
  abbrev pub AllHonest : List (Event Item) → Poller Item → Type 0
  AllHonest [] s = Unit
  AllHonest (e ∷ es) s = IsHonest e s × AllHonest es (step e s)

  -- No device is followed, or every shown item is of the device that is.
  abbrev pub ShowsOwn : Poller Item → Type 0
  ShowsOwn s = (s.activity_device ≡ "") ⊎ All (λ x. owner x ≡ s.activity_device) s.activity

  load_own : (s : Poller Item) → ShowsOwn s → ShowsOwn (load_activity s)
  unfolding load_activity
  load_own s h = if_cases ShowsOwn (may_load s) (λ go. h) (λ stop. h)

  start_own : (d : String) (s : Poller Item) → ShowsOwn (start_activity d s)
  unfolding start_activity
  start_own d s =
      load_own
        (record (stop_activity false s) {
          activity_device = d;
          activity = [];
          loaded = false;
          error = "";
        })
        (inr tt)

  load_detail_own : (s : Poller Item) → ShowsOwn s → ShowsOwn (load_detail s)
  unfolding load_detail
  load_detail_own s h =
      if_cases ShowsOwn (s.is_open && truthy s.device && not (s.detail_loaded_for == s.device))
        {x = start_activity s.device (record s { detail_loaded_for = s.device })} {y = s}
        (λ new. start_own s.device (record s { detail_loaded_for = s.device })) (λ same. h)

  stop_if_closed_own : (s : Poller Item) → ShowsOwn s → ShowsOwn (stop_if_closed s)
  unfolding stop_if_closed
  stop_if_closed_own s h =
      if_cases ShowsOwn (not s.is_open && truthy s.activity_device) {x = stop_activity true s}
        {y = s} (λ stop. unfold stop_activity in inl refl) (λ stay. h)

  set_props_own :
      (shown : Bool) (d : String) (s : Poller Item) → ShowsOwn s → ShowsOwn (set_props shown d s)
  unfolding set_props
  set_props_own shown d s h =
      if_cases ShowsOwn s.destroyed (λ dead. h)
        (λ mounted.
          stop_if_closed_own (load_detail (record s { is_open = shown; device = d }))
            (load_detail_own (record s { is_open = shown; device = d }) h))

  show_own :
      (r : Request) (o : Outcome Item) (s : Poller Item)
      → AnswersFor (some r) o
      → ShowsOwn s
      → ShowsOwn (show r o s)
  unfolding show
  show_own r (arrived items) s honest h =
      if_cases ShowsOwn (is_live r s)
        (λ live. inr (subst (λ d. All (λ x. owner x ≡ d) items) (is_live_lem r s live).3 honest))
        (λ dead. h)
  show_own r (failed aborted message) s honest h =
      if_cases ShowsOwn (is_live r s && not aborted) (λ live. h) (λ dead. h)

  schedule_own : (r : Request) (s : Poller Item) → ShowsOwn s → ShowsOwn (schedule r s)
  unfolding schedule
  schedule_own r s h = if_cases ShowsOwn (is_live r s) (λ live. h) (λ dead. h)

  release_own : (r : Request) (s : Poller Item) → ShowsOwn s → ShowsOwn (release r s)
  unfolding release
  release_own r s h = if_cases ShowsOwn (r.generation == s.generation) (λ fresh. h) (λ stale. h)

  finish_own :
      (r : Request) (o : Outcome Item) (s : Poller Item)
      → AnswersFor (some r) o
      → ShowsOwn s
      → ShowsOwn (finish r o s)
  unfolding finish
  finish_own r o s honest h = schedule_own r _ (release_own r _ (show_own r o s honest h))

  settle_own :
      (i : ℕ) (o : Outcome Item) (s : Poller Item)
      → AnswersFor (get_elem? s.in_flight i) o
      → ShowsOwn s
      → ShowsOwn (settle i o s)
  unfolding settle settle_at
  settle_own i o s honest h = elim (Option-cases (get_elem? s.in_flight i)) [
    | inl nothing ↦ rw (nothing, settle_at) h
    | inr (r, found) ↦
        rw (found, settle_at) (finish_own r o _ (subst (λ q. AnswersFor q o) found honest) h)
  ]

  fire_own : (n : ℕ) (s : Poller Item) → ShowsOwn s → ShowsOwn (fire n s)
  unfolding fire
  fire_own n s h = if_cases ShowsOwn (includes s.pending n) (λ found. load_own _ h) (λ missed. h)

  step_own : (e : Event Item) (s : Poller Item) → IsHonest e s → ShowsOwn s → ShowsOwn (step e s)
  unfolding step
  step_own (props shown d) s honest h = set_props_own shown d s h
  step_own close s honest h = unfold stop_activity in inl refl
  step_own unmount s honest h = unfold destroy stop_activity in inl refl
  step_own (settled i o) s honest h = settle_own i o s honest h
  step_own (fired n) s honest h = fire_own n s h

  run_own :
      (es : List (Event Item)) (s : Poller Item) → AllHonest es s → ShowsOwn s → ShowsOwn (run es s)
  unfolding run
  run_own [] s honest h = h
  run_own (e ∷ es) s honest h = run_own es (step e s) honest.1 (step_own e s honest.0 h)

  -- If each response holds items of the device that was asked for, then after any events, with
  -- responses that come late or out of order, the dialog follows no device or every item that it
  -- shows is of the device that it follows.
  pub run-ShowsOwn : (es : List (Event Item)) → AllHonest es initial → ShowsOwn (run es initial)
  run-ShowsOwn es honest = run_own es initial honest (inl refl)
