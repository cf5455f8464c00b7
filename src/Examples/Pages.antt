-- ===== src/Examples/Pages.antt =====
-- The pages that reload on concrete runs.
use gatesentry.Shared.{
  ℕ, String, true, false, none, some, List, [], ◌∷◌, ◌≡◌, refl, inl, inr, String_eq,
}
use gatesentry.Refresh.{load, fire, refresh}
use gatesentry.StatsPage as StatsPage
use gatesentry.StatsPage.Fresh.{IsCurrent, run-IsCurrent}
use gatesentry.LogsPage as LogsPage
use gatesentry.LogsPage.{Decision, next_filter}
use gatesentry.LogsPage.Shown.{decision_reply-silent}

-- The window is changed during the first call; the reply is then for the old one.
abbrev stats_events : List (StatsPage.Event ℕ ℕ)
stats_events =
    StatsPage.choose 0
    ∷ StatsPage.summary_reply (λ k. inl 5)
    ∷ StatsPage.summary_reply (λ k. inl 7)
    ∷ StatsPage.traffic_reply (inl 1)
    ∷ StatsPage.summary_timer
    ∷ []

stats_run :
    ((StatsPage.run stats_events (StatsPage.opened {V = ℕ} {T = ℕ})).summary ≡ some (0, 7))
    × ((StatsPage.run stats_events (StatsPage.opened {V = ℕ} {T = ℕ})).summary_loop.requested
        ≡ some 0)
unfolding StatsPage.run StatsPage.step StatsPage.select_window StatsPage.refresh_summary refresh
    load fire
stats_run = (refl, refl)

-- The old window is chosen back while a call for the new one waits.
abbrev stats_page : StatsPage.Page ℕ ℕ
stats_page = record StatsPage.opened {
  selected = 1;
  summary = some (1, 4);
  summary_loop = record { requested = some 0; pending = true; timer = false };
}

abbrev late_events : List (StatsPage.Event ℕ ℕ)
late_events =
    StatsPage.summary_reply (λ k. inl 7)
    ∷ StatsPage.summary_reply (λ k. inr "HTTP 500")
    ∷ StatsPage.summary_timer
    ∷ []

run-IsCurrent_example : IsCurrent (StatsPage.run late_events stats_page)
run-IsCurrent_example = run-IsCurrent late_events stats_page (tt, (tt, (tt, tt))) refl

abbrev encoded : String → String
encoded s = s

abbrev blocked : Decision
blocked = record {
  ip = "192.0.2.10";
  time = 1700000000;
  url = "ads.example";
  action = some "block";
  layer = some "dns";
  reason = none;
  matched_rule = none;
}

abbrev log_events : List LogsPage.Event
log_events =
    LogsPage.decision_reply (inl (blocked ∷ []))
    ∷ LogsPage.select_action "allow"
    ∷ LogsPage.select_layer "dns"
    ∷ LogsPage.decision_reply (inl [])
    ∷ []

abbrev loaded_page : LogsPage.Page
loaded_page = record LogsPage.opened { decisions = blocked ∷ []; initial_loaded = true }

decision_reply-silent_example :
    ((LogsPage.step encoded
        (LogsPage.decision_reply (inr "HTTP 500"))
        (LogsPage.step encoded (LogsPage.select_action "allow") loaded_page)).action_filter
      ≡ "allow")
    × ((LogsPage.step encoded
          (LogsPage.decision_reply (inr "HTTP 500"))
          (LogsPage.step encoded (LogsPage.select_action "allow") loaded_page)).decisions
        ≡ blocked ∷ [])
    × ((LogsPage.step encoded
          (LogsPage.decision_reply (inr "HTTP 500"))
          (LogsPage.step encoded (LogsPage.select_action "allow") loaded_page)).load_error
        ≡ "")
decision_reply-silent_example = decision_reply-silent encoded loaded_page "allow" "HTTP 500" refl
