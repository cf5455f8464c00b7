-- ===== src/ActivityPoll/Progress.antt =====
-- Polling does not die while the dialog is open.
use gatesentry.Shared.{
  ℕ, String, Bool, true, false, some, List, [], ◌∷◌, ◌≡◌, ◌∙◌, ◌⊎◌, refl, arith, inl, inr, sym,
  Bool-cases, Option-cases, ◌==◌, ◌&&◌, not, filter, includes, if_cases, get_elem?, erase_idx, ℕ_eq,
  String_eq, All, All_of_get_elem?, if◌then◌else◌, ap, truthy, non_empty, eq_of_beq, beq_self,
}
use gatesentry.ActivityPoll.{
  Request, Outcome, Poller, stop_activity, may_load, load_activity, is_live, finish, start_activity,
  load_detail, stop_if_closed, set_props, destroy, settle_at, settle, fire, Event, props, close,
  unmount, settled, fired, step, run, initial,
}
use gatesentry.ActivityPoll.Invariant.{Inv, live_count, not-truthy}
use gatesentry.ActivityPoll.Settle.{finish_stale}
use gatesentry.ActivityPoll.Steps.{step-Inv, run-Inv, initial-Inv}
use gatesentry.ActivityPoll.Alive.{
  NamesDevice, Alive, load_polls, core, core-finish, finish_polls, Alive-core,
}

module _ {Item : Type 0} where
  following :
      (s : Poller Item)
      → Inv s
      → truthy s.activity_device ≡ true
      → (s.destroyed ≡ false) × (s.is_open ≡ true)
  following s h named = (mounted (Bool-cases s.destroyed), shown (Bool-cases s.is_open))
    where
      mounted : (s.destroyed ≡ true) ⊎ (s.destroyed ≡ false) → s.destroyed ≡ false
      mounted (inl dead) = absurd (not-truthy s.activity_device (h.gone dead) named)
      mounted (inr alive) = alive

      shown : (s.is_open ≡ true) ⊎ (s.is_open ≡ false) → s.is_open ≡ true
      shown (inl yes_open) = yes_open
      shown (inr closed) = absurd (not-truthy s.activity_device (h.hidden closed) named)

  live_of :
      (s : Poller Item) (r : Request) (i : ℕ)
      → Inv s
      → get_elem? s.in_flight i ≡ some r
      → (r.generation == s.generation) ≡ true
      → truthy s.activity_device ≡ true
      → is_live r (record s { in_flight = erase_idx s.in_flight i }) ≡ true
  unfolding is_live
  live_of s r i h found fresh named =
      let mine =
        All_of_get_elem? _ s.in_flight i r h.own_device found
          (eq_of_beq r.generation s.generation fresh) in
      let (mounted, shown) = following s h named in
      let beq = beq_self s.activity_device in rw (mounted, shown, fresh, mine) beq

  finish-Alive :
      (i : ℕ) (r : Request) (o : Outcome Item) (s : Poller Item)
      → Inv s
      → get_elem? s.in_flight i ≡ some r
      → Alive s
      → Alive (finish r o (record s { in_flight = erase_idx s.in_flight i }))
  finish-Alive i r o s h found a =
      let e = record s { in_flight = erase_idx s.in_flight i } in
      Alive-core s (finish r o e) (core-finish r o e)
        (λ named. elim (Bool-cases (r.generation == s.generation)) [
          | inl fresh ↦ inr (finish_polls r o e (live_of s r i h found fresh named))
          | inr stale ↦ rw (finish_stale r o e stale) (a.polling named)
        ])
        a.loaded_for a.follows

  settle-Alive :
      (i : ℕ) (o : Outcome Item) (s : Poller Item) → Inv s → Alive s → Alive (settle i o s)
  unfolding settle settle_at
  settle-Alive i o s h a = elim (Option-cases (get_elem? s.in_flight i)) [
    | inl nothing ↦ rw (nothing, settle_at) a
    | inr (r, found) ↦ rw (found, settle_at) (finish-Alive i r o s h found a)
  ]

  core-load : (s : Poller Item) → core (load_activity s) ≡ core s
  unfolding load_activity
  core-load s = if_cases (λ (x : Poller Item). core x ≡ core s) (may_load s) (λ e. refl) (λ e. refl)

  fire-Alive : (t : ℕ) (s : Poller Item) → Inv s → Alive s → Alive (fire t s)
  unfolding fire
  fire-Alive t s h a =
      let u = record s { pending = filter (λ v. not (v == t)) s.pending } in
      if_cases Alive (includes s.pending t) {x = load_activity u} {y = s}
        (λ found.
          Alive-core s (load_activity u) (core-load u)
            (λ named.
              let (mounted, shown) = following s h named in
              inl (load_polls u mounted shown named (a.follows named ∙ sym (a.loaded_for shown))))
            a.loaded_for a.follows)
        (λ missed. a)

  start-Alive :
      (s : Poller Item)
      → s.destroyed ≡ false
      → s.is_open ≡ true
      → truthy s.device ≡ true
      → s.device ≡ s.detail_loaded_for
      → Alive (start_activity s.device s)
  unfolding start_activity stop_activity
  start-Alive s mounted shown named same =
      let u = record (stop_activity false s) {
        activity_device = s.device;
        activity = [];
        loaded = false;
        error = "";
      } in
      Alive-core u (load_activity u) (core-load u)
        (λ n. inl (load_polls u mounted shown named refl)) (λ o. same) (λ n. same)

  open_props-Alive :
      (d : String) (s : Poller Item)
      → truthy d ≡ true
      → s.destroyed ≡ false
      → Inv s
      → Alive s
      → Alive (load_detail (record s { is_open = true; device = d }))
  unfolding load_detail
  open_props-Alive d s named mounted h a =
      let u = record s { is_open = true; device = d } in
      if_cases Alive (u.is_open && truthy u.device && not (u.detail_loaded_for == u.device))
        {x = start_activity d (record u { detail_loaded_for = d })} {y = u}
        (λ new. start-Alive (record u { detail_loaded_for = d }) mounted refl named refl)
        (λ same. record {
          loaded_for = λ o. sym (eq_of_beq s.detail_loaded_for d (ground arith));
          polling = a.polling;
          follows = a.follows;
        })

  stop-Alive :
      (s : Poller Item)
      → (s.is_open ≡ true → s.device ≡ s.detail_loaded_for)
      → Alive (stop_activity true s)
  unfolding stop_activity
  stop-Alive s loaded = record { loaded_for = loaded; polling = λ n. cc; follows = λ n. cc }

  close_props-Alive :
      (d : String) (s : Poller Item)
      → Alive (stop_if_closed (record s { is_open = false; device = d }))
  unfolding stop_if_closed
  close_props-Alive d s =
      let u = record s { is_open = false; device = d } in
      if_cases Alive (truthy u.activity_device) {x = stop_activity true u} {y = u}
        (λ stop. stop-Alive u (λ o. cc))
        (λ stay. record {
          loaded_for = λ o. cc;
          polling = λ n. cc (n, stay);
          follows = λ n. cc (n, stay);
        })

  stop_if_closed-Alive : (u : Poller Item) → Alive u → Alive (stop_if_closed u)
  unfolding stop_if_closed
  stop_if_closed-Alive u a =
      if_cases Alive (not u.is_open && truthy u.activity_device) {x = stop_activity true u} {y = u}
        (λ stop. stop-Alive u a.loaded_for) (λ stay. a)

  props-Alive :
      (shown : Bool) (d : String) (s : Poller Item)
      → truthy d ≡ true
      → Inv s
      → Alive s
      → Alive (set_props shown d s)
  unfolding set_props
  props-Alive true d s named h a =
      let u = load_detail (record s { is_open = true; device = d }) in
      if_cases Alive s.destroyed {x = s} {y = stop_if_closed u} (λ dead. a)
        (λ mounted. stop_if_closed-Alive u (open_props-Alive d s named mounted h a))
  props-Alive false d s named h a =
      if_cases Alive s.destroyed {x = s}
        {y = stop_if_closed (load_detail (record s { is_open = false; device = d }))} (λ dead. a)
        (λ mounted. unfold load_detail in close_props-Alive d s)

  step-Alive :
      (e : Event Item) (s : Poller Item) → NamesDevice e → Inv s → Alive s → Alive (step e s)
  unfolding step
  step-Alive (props shown d) s named h a = props-Alive shown d s named h a
  step-Alive close s named h a = stop-Alive s a.loaded_for
  step-Alive unmount s named h a =
      unfold destroy in stop-Alive (record s { destroyed = true }) a.loaded_for
  step-Alive (settled i o) s named h a = settle-Alive i o s h a
  step-Alive (fired t) s named h a = fire-Alive t s h a

  run-Alive :
      (es : List (Event Item)) (s : Poller Item)
      → All NamesDevice es
      → Inv s
      → Alive s
      → Alive (run es s)
  unfolding run
  run-Alive [] s named h a = a
  run-Alive (e ∷ es) s named h a =
      run-Alive es (step e s) named.1 (step-Inv e s h) (step-Alive e s named.0 h a)

  waiting : (s : Poller Item) → Inv s → s.running ≡ true → live_count s.generation s.in_flight ≡ 1
  waiting s h on = h.single ∙ ap (λ b. if b then 1 else 0) on

  -- If the parent never blanks the device of the dialog, then after any events a dialog that
  -- follows a device still polls: one call of its current generation waits for its response, or a timer
  -- is pending. So it polls after errors, aborted requests, late responses and changes of the device.
  pub run-polls :
      (es : List (Event Item))
      → All NamesDevice es
      → truthy (run es initial).activity_device ≡ true
      → (live_count (run es initial).generation (run es initial).in_flight ≡ 1)
        ⊎ (non_empty (run es initial).pending ≡ true)
  run-polls es named follows =
      let alive =
        run-Alive es initial named initial-Inv
          (record { loaded_for = λ o. refl; polling = λ n. cc; follows = λ n. cc }) in
      elim (alive.polling follows) [
        | inl on ↦ inl (waiting (run es initial) (run-Inv es initial initial-Inv) on)
        | inr set ↦ inr set
      ]
