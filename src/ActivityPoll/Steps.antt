-- ===== src/ActivityPoll/Steps.antt =====
-- Every event keeps the invariant of the activity poller.
use gatesentry.Shared.{
  ℕ, ◌≤◌, String, Bool, true, false, Option, List, [], ◌∷◌, ◌≡◌, refl, arith, inl, inr, Bool-cases,
  Option-cases, if_cases, ◌==◌, not, ◌&&◌, filter, includes, get_elem?, truthy, All, All-imp, ℕ_eq,
  String_eq,
}
use gatesentry.ActivityPoll.{
  Outcome, Poller, stop_activity, load_activity, start_activity, load_detail, stop_if_closed,
  set_props, destroy, settle_at, settle, fire, Event, props, close, unmount, settled, fired, step,
  run, initial,
}
use gatesentry.ActivityPoll.Invariant.{
  IsHeld, Inv, live_count_past, clear_timer-held, stop_activity-Inv, load_activity-Inv,
}
use gatesentry.ActivityPoll.Settle.{finish-Inv}

falsy_empty : (d : String) → truthy d ≡ false → d ≡ ""
falsy_empty String.[] h = refl
falsy_empty (String.◌∷◌ c d) h = cc

filter-held :
    (t : ℕ) (timer : Option ℕ) (pending : List ℕ)
    → IsHeld timer pending
    → includes pending t ≡ true
    → filter (λ u. not (u == t)) pending ≡ []
filter-held t timer pending (inl e) found = rw e
filter-held t timer pending (inr (u, e, f)) found = rw e (single_out (rw e at found))
  where
    single_out : includes (u ∷ []) t ≡ true → filter (λ u'. not (u' == t)) (u ∷ []) ≡ []
    single_out h = ground arith

module _ {Item : Type 0} where
  start_activity-Inv :
      (d : String) (s : Poller Item)
      → truthy d ≡ true
      → s.destroyed ≡ false
      → s.is_open ≡ true
      → Inv s
      → Inv (start_activity d s)
  unfolding start_activity stop_activity
  start_activity-Inv d s named mounted shown h =
      let none_left = clear_timer-held s.timer s.pending h.held in
      load_activity-Inv _
        (record {
          past = All-imp _ _ s.in_flight (λ r k. omega arith) h.past;
          single = live_count_past s.generation s.in_flight h.past;
          own_device = All-imp _ _ s.in_flight (λ r k e. absurd (omega arith)) h.past;
          named = h.named;
          alone = λ e. cc;
          held = inl none_left;
          idle = λ e. (refl, none_left);
          gone = λ e. cc;
          hidden = λ e. cc;
        })
        none_left

  load_detail-Inv : (s : Poller Item) → s.destroyed ≡ false → Inv s → Inv (load_detail s)
  unfolding load_detail
  load_detail-Inv s mounted h =
      elim (Bool-cases (s.is_open && truthy s.device && not (s.detail_loaded_for == s.device))) [
        | inr same ↦ rw same h
        | inl new ↦ rw new (
            start_activity-Inv s.device (record s { detail_loaded_for = s.device }) (ground arith)
              mounted (ground arith)
              (record {
                past = h.past;
                single = h.single;
                own_device = h.own_device;
                named = h.named;
                alone = h.alone;
                held = h.held;
                idle = h.idle;
                gone = h.gone;
                hidden = h.hidden;
              }))
      ]

  load_activity-is_open : (s : Poller Item) → (load_activity s).is_open ≡ s.is_open
  unfolding load_activity
  load_activity-is_open s = ground arith

  load_detail-is_open : (s : Poller Item) → (load_detail s).is_open ≡ s.is_open
  unfolding load_detail start_activity stop_activity
  load_detail-is_open s =
      elim (Bool-cases (s.is_open && truthy s.device && not (s.detail_loaded_for == s.device))) [
        | inr same ↦ rw same
        | inl new ↦ rw new (load_activity-is_open _)
      ]

  stop_if_closed-Inv :
      (s : Poller Item)
      → All (λ r. r.generation ≤ s.generation) s.in_flight
      → All (λ r. truthy r.device ≡ true) s.in_flight
      → IsHeld s.timer s.pending
      → ((not s.is_open && truthy s.activity_device) ≡ false → Inv s)
      → Inv (stop_if_closed s)
  unfolding stop_if_closed
  stop_if_closed-Inv s past named held quiet =
      elim (Bool-cases (not s.is_open && truthy s.activity_device)) [
        | inl stop ↦ rw stop (stop_activity-Inv true s past named held (λ e. cc))
        | inr stay ↦ rw stay (quiet stay)
      ]

  mounted_props-Inv :
      (shown : Bool) (d : String) (s : Poller Item)
      → s.destroyed ≡ false
      → Inv s
      → Inv (stop_if_closed (load_detail (record s { is_open = shown; device = d })))
  mounted_props-Inv true d s mounted h =
      let s1 = record s { is_open = true; device = d } in
      let inv = load_detail-Inv s1 mounted (record {
        past = h.past;
        single = h.single;
        own_device = h.own_device;
        named = h.named;
        alone = h.alone;
        held = h.held;
        idle = h.idle;
        gone = h.gone;
        hidden = λ e. cc;
      }) in
      stop_if_closed-Inv (load_detail s1) inv.past inv.named inv.held (λ e. inv)
  mounted_props-Inv false d s mounted h =
      unfold load_detail in
      stop_if_closed-Inv (record s { is_open = false; device = d }) h.past h.named h.held
        (λ e. record {
          past = h.past;
          single = h.single;
          own_device = h.own_device;
          named = h.named;
          alone = h.alone;
          held = h.held;
          idle = h.idle;
          gone = h.gone;
          hidden = λ c. falsy_empty s.activity_device e;
        })

  set_props-Inv : (shown : Bool) (d : String) (s : Poller Item) → Inv s → Inv (set_props shown d s)
  unfolding set_props
  set_props-Inv shown d s h =
      if_cases Inv s.destroyed (λ dead. h) (λ mounted. mounted_props-Inv shown d s mounted h)

  destroy-Inv : (s : Poller Item) → Inv s → Inv (destroy s)
  unfolding destroy
  destroy-Inv s h =
      stop_activity-Inv true (record s { destroyed = true }) h.past h.named h.held (λ e. cc)

  settle-Inv : (i : ℕ) (o : Outcome Item) (s : Poller Item) → Inv s → Inv (settle i o s)
  unfolding settle settle_at
  settle-Inv i o s h = elim (Option-cases (get_elem? s.in_flight i)) [
    | inl nothing ↦ rw (nothing, settle_at) h
    | inr (r, found) ↦ rw (found, settle_at) (finish-Inv i r o s found h)
  ]

  fire-Inv : (t : ℕ) (s : Poller Item) → Inv s → Inv (fire t s)
  unfolding fire
  fire-Inv t s h = elim (Bool-cases (includes s.pending t)) [
    | inr missed ↦ rw missed h
    | inl found ↦
        let none_left = filter-held t s.timer s.pending h.held found in
        rw found (
          load_activity-Inv (record s { pending = filter (λ u. not (u == t)) s.pending })
            (record {
              past = h.past;
              single = h.single;
              own_device = h.own_device;
              named = h.named;
              alone = λ e. none_left;
              held = inl none_left;
              idle = λ e. ((h.idle e).0, none_left);
              gone = h.gone;
              hidden = h.hidden;
            })
            none_left)
  ]

  pub step-Inv : (e : Event Item) (s : Poller Item) → Inv s → Inv (step e s)
  unfolding step
  step-Inv (props shown d) s h = set_props-Inv shown d s h
  step-Inv close s h = stop_activity-Inv true s h.past h.named h.held (λ e. cc)
  step-Inv unmount s h = destroy-Inv s h
  step-Inv (settled i o) s h = settle-Inv i o s h
  step-Inv (fired t) s h = fire-Inv t s h

  pub run-Inv : (es : List (Event Item)) (s : Poller Item) → Inv s → Inv (run es s)
  unfolding run
  run-Inv [] s h = h
  run-Inv (e ∷ es) s h = run-Inv es (step e s) (step-Inv e s h)

  pub initial-Inv : Inv (initial {Item = Item})
  initial-Inv = record {
    past = tt;
    single = refl;
    own_device = tt;
    named = tt;
    alone = λ e. refl;
    held = inl refl;
    idle = λ e. (refl, refl);
    gone = λ e. refl;
    hidden = λ e. refl;
  }
