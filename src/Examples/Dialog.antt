-- ===== src/Examples/Dialog.antt =====
-- The activity poller of the device dialog, ui/src/routes/devices/devicedetail.svelte, on a run in
-- which a response for a closed dialog comes late.
use gatesentry.Shared.{
  ◌+◌, ◌≤◌, String, true, false, List, [], ◌∷◌, ◌≡◌, ◌⊎◌, refl, non_empty, length,
}
use gatesentry.ActivityPoll.{
  arrived, failed, Event, props, settled, fired, run, destroy, initial, step, set_props, settle,
  settle_at, finish, show, release, schedule, is_live, may_load, load_activity, start_activity,
  load_detail, stop_if_closed, stop_activity, clear_timer, fire,
}
use gatesentry.ActivityPoll.Invariant.{live_count}
use gatesentry.ActivityPoll.Single.{run_single}
use gatesentry.ActivityPoll.Owner.{ShowsOwn, run-ShowsOwn}
use gatesentry.ActivityPoll.Quiet.{trace, run-destroy}
use gatesentry.ActivityPoll.Progress.{run-polls}

poller : Unit {0}
unfolding run step set_props settle settle_at finish show release schedule is_live may_load
    load_activity start_activity load_detail stop_if_closed stop_activity clear_timer fire destroy
poller = tt

-- The item of a device is its id.
abbrev events : List (Event String)
events =
    props true "tv"
    ∷ props true "phone"
    ∷ settled 1 (arrived ("tv" ∷ []))
    ∷ settled 0 (arrived ("phone" ∷ "phone" ∷ []))
    ∷ fired 0
    ∷ settled 0 (failed false "down")
    ∷ []

-- The late response of the first device is dropped, and an error leaves the items in place.
run_tests :
    ((run events initial).activity ≡ "phone" ∷ "phone" ∷ [])
    × ((run events initial).error ≡ "down")
    × ((run events initial).pending ≡ 1 ∷ [])
    × ((run events initial).next_request ≡ 3)
unfolding poller
run_tests = (refl, refl, refl, refl)

run_single_example :
    live_count (run events initial).generation (run events initial).in_flight
      + length (run events initial).pending
    ≤ 1
run_single_example = run_single events

run-ShowsOwn_example : ShowsOwn (λ s. s) (run events initial)
unfolding poller
run-ShowsOwn_example =
    run-ShowsOwn (λ s. s) events (tt, (tt, ((refl, tt), ((refl, (refl, tt)), (tt, (tt, tt))))))

run-destroy_example : trace (run events (destroy (run events initial))) ≡ trace (run events initial)
run-destroy_example = run-destroy events (run events initial)

run-polls_example :
    (live_count (run events initial).generation (run events initial).in_flight ≡ 1)
    ⊎ (non_empty (run events initial).pending ≡ true)
unfolding poller
run-polls_example = run-polls events (refl, (refl, (tt, (tt, (tt, (tt, tt)))))) refl
