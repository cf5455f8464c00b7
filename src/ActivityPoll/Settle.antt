-- ===== src/ActivityPoll/Settle.antt =====
-- A request that settles keeps the invariant of the activity poller.
use gatesentry.Shared.{
  ℕ, ◌≤◌, true, false, some, [], ◌≡◌, ◌∙◌, refl, arith, inl, inr, Bool-cases, ◌==◌, not, ◌&&◌,
  get_elem?, erase_idx, truthy, All, All-erase_idx, All_of_get_elem?, eq_of_beq, ℕ_eq, String_eq,
}
use gatesentry.ActivityPoll.{
  Request, Outcome, arrived, failed, Poller, is_live, show, release, schedule, finish,
}
use gatesentry.ActivityPoll.Invariant.{live_count, Inv, live_count_erase, not-truthy}

module _ {Item : Type 0} where
  is_live_stale :
      (r : Request) (s : Poller Item) → (r.generation == s.generation) ≡ false → is_live r s ≡ false
  unfolding is_live
  is_live_stale r s stale = ground arith

  pub show_stale :
      (r : Request) (o : Outcome Item) (s : Poller Item) → is_live r s ≡ false → show r o s ≡ s
  unfolding show
  show_stale r (arrived items) s dead = rw dead
  show_stale r (failed aborted message) s dead = rw dead

  -- A settled request of another generation changes nothing.
  pub finish_stale :
      (r : Request) (o : Outcome Item) (s : Poller Item)
      → (r.generation == s.generation) ≡ false
      → finish r o s ≡ s
  unfolding finish release schedule
  finish_stale r o s stale =
      rw (show_stale r o s (is_live_stale r s stale), stale, is_live_stale r s stale)

  -- Between the end of the wait and the end of `finally`, no call of the generation is left.
  record IsSettling (s : Poller Item) : Type 0 where
    past : All (λ r. r.generation ≤ s.generation) s.in_flight
    none_left : live_count s.generation s.in_flight ≡ 0
    own_device : All (λ r. r.generation ≡ s.generation → r.device ≡ s.activity_device) s.in_flight
    named : All (λ r. truthy r.device ≡ true) s.in_flight
    quiet : s.pending ≡ []
    gone : s.destroyed ≡ true → s.activity_device ≡ ""
    hidden : s.is_open ≡ false → s.activity_device ≡ ""

  show-IsSettling :
      (r : Request) (o : Outcome Item) (s : Poller Item) → IsSettling s → IsSettling (show r o s)
  unfolding show
  show-IsSettling r (arrived items) s h = elim (Bool-cases (is_live r s)) [
    | inl live ↦ rw live (record {
      past = h.past;
      none_left = h.none_left;
      own_device = h.own_device;
      named = h.named;
      quiet = h.quiet;
      gone = h.gone;
      hidden = h.hidden;
    })
    | inr dead ↦ rw dead h
  ]
  show-IsSettling r (failed aborted message) s h = elim (Bool-cases (is_live r s && not aborted)) [
    | inl live ↦ rw live (record {
      past = h.past;
      none_left = h.none_left;
      own_device = h.own_device;
      named = h.named;
      quiet = h.quiet;
      gone = h.gone;
      hidden = h.hidden;
    })
    | inr dead ↦ rw dead h
  ]

  pub show-generation :
      (r : Request) (o : Outcome Item) (s : Poller Item) → (show r o s).generation ≡ s.generation
  unfolding show
  show-generation r (arrived items) s = ground arith
  show-generation r (failed aborted message) s = ground arith

  release-Inv :
      (r : Request) (s : Poller Item)
      → (r.generation == s.generation) ≡ true
      → IsSettling s
      → Inv (release r s) × ((release r s).pending ≡ []) × ((release r s).running ≡ false)
  unfolding release
  release-Inv r s fresh h = rw fresh (
    record {
      past = h.past;
      single = h.none_left;
      own_device = h.own_device;
      named = h.named;
      alone = λ e. h.quiet;
      held = inl h.quiet;
      idle = λ e. (refl, h.quiet);
      gone = h.gone;
      hidden = h.hidden;
    },
    h.quiet,
    refl,
  )

  pub is_live_lem :
      (r : Request) (s : Poller Item)
      → is_live r s ≡ true
      → (s.destroyed ≡ false)
        × (s.is_open ≡ true)
        × (r.generation ≡ s.generation)
        × (r.device ≡ s.activity_device)
  unfolding is_live
  is_live_lem r s live = (
    ground arith,
    ground arith,
    eq_of_beq r.generation s.generation (ground arith),
    eq_of_beq r.device s.activity_device (ground arith),
  )

  schedule-Inv :
      (r : Request) (s : Poller Item)
      → truthy r.device ≡ true
      → s.pending ≡ []
      → s.running ≡ false
      → Inv s
      → Inv (schedule r s)
  unfolding schedule
  schedule-Inv r s named quiet idle h = elim (Bool-cases (is_live r s)) [
    | inr dead ↦ rw dead h
    | inl live ↦
        let (mounted, shown, now, mine) = is_live_lem r s live in
        rw live (record {
          past = h.past;
          single = h.single;
          own_device = h.own_device;
          named = h.named;
          alone = λ e. cc;
          held = inr (s.next_timer, ground arith, refl);
          idle = λ e. absurd (not-truthy r.device (mine ∙ e) named);
          gone = h.gone;
          hidden = h.hidden;
        })
  ]

  erased-IsSettling :
      (i : ℕ) (r : Request) (s : Poller Item)
      → get_elem? s.in_flight i ≡ some r
      → (r.generation == s.generation) ≡ true
      → Inv s
      → IsSettling (record s { in_flight = erase_idx s.in_flight i })
  erased-IsSettling i r s found fresh h =
      let counted = live_count_erase s.generation i s.in_flight r found in
      record {
        past = All-erase_idx _ s.in_flight i h.past;
        none_left = ground (arith, counted, h.single);
        own_device = All-erase_idx _ s.in_flight i h.own_device;
        named = All-erase_idx _ s.in_flight i h.named;
        quiet = h.alone (ground (arith, counted, h.single));
        gone = h.gone;
        hidden = h.hidden;
      }

  finish_fresh-Inv :
      (i : ℕ) (r : Request) (o : Outcome Item) (s : Poller Item)
      → get_elem? s.in_flight i ≡ some r
      → (r.generation == s.generation) ≡ true
      → Inv s
      → Inv (finish r o (record s { in_flight = erase_idx s.in_flight i }))
  finish_fresh-Inv i r o s found fresh h =
      let e = record s { in_flight = erase_idx s.in_flight i } in
      let fresh' : (r.generation == (show r o e).generation) ≡ true =
        rw (show-generation r o e) fresh in
      let (inv, quiet, idle) =
        release-Inv r (show r o e) fresh'
          (show-IsSettling r o e (erased-IsSettling i r s found fresh h)) in
      unfold finish in
      schedule-Inv r (release r (show r o e)) (All_of_get_elem? _ s.in_flight i r h.named found)
        quiet idle inv

  pub finish-Inv :
      (i : ℕ) (r : Request) (o : Outcome Item) (s : Poller Item)
      → get_elem? s.in_flight i ≡ some r
      → Inv s
      → Inv (finish r o (record s { in_flight = erase_idx s.in_flight i }))
  finish-Inv i r o s found h = elim (Bool-cases (r.generation == s.generation)) [
    | inr stale ↦
        rw (finish_stale r o (record s { in_flight = erase_idx s.in_flight i }) stale) (record {
          past = All-erase_idx _ s.in_flight i h.past;
          single = ground (arith, live_count_erase s.generation i s.in_flight r, h.single);
          own_device = All-erase_idx _ s.in_flight i h.own_device;
          named = All-erase_idx _ s.in_flight i h.named;
          alone = h.alone;
          held = h.held;
          idle = h.idle;
          gone = h.gone;
          hidden = h.hidden;
        })
    | inl fresh ↦ finish_fresh-Inv i r o s found fresh h
  ]
