-- ===== src/ActivityPoll/Single.antt =====
-- The dialog polls along a single chain of requests and timers.
use gatesentry.Shared.{◌+◌, ◌≤◌, List, arith, length}
use gatesentry.ActivityPoll.{Poller, Event, run, initial}
use gatesentry.ActivityPoll.Invariant.{Inv, live_count}
use gatesentry.ActivityPoll.Steps.{run-Inv, initial-Inv}

module _ {Item : Type 0} where
  Inv-single :
      (s : Poller Item) → Inv s → live_count s.generation s.in_flight + length s.pending ≤ 1
  Inv-single s h = ground (arith, h.single, h.alone, h.held)

  -- After any events in any order, the waiting requests of the current generation and the pending
  -- timers are at most one together: there are never two polling chains.
  pub run_single :
      (es : List (Event Item))
      → let s = run es initial in live_count s.generation s.in_flight + length s.pending ≤ 1
  run_single es = Inv-single (run es initial) (run-Inv es initial initial-Inv)
