-- ===== src/Examples/Dns.antt =====
-- The DNS page on concrete events.
use gatesentry.Shared.{some, none, List, [], ◌∷◌, ◌≡◌, refl, inl, inr}
use gatesentry.DnsPage.{
  DnsInfo, Event, refresh_pressed, list_changed, timer_fired, settled, load_dns_info, info_loaded,
  on_update_dns_info, timer_fires, mounted, step, run,
}
use gatesentry.DnsPage.Live.{IsLive, run-IsLive}

abbrev info : DnsInfo
info = record { number_domains_blocked = some 12; last_updated = none; next_update = none }

-- A list is changed while the first call waits; the timer fires after its reply.
abbrev events : List Event
events =
    list_changed ∷ refresh_pressed ∷ settled (inl info) ∷ timer_fired ∷ settled (inr "Failed") ∷ []

run-IsLive_example : IsLive (run events mounted)
run-IsLive_example = run-IsLive events

status_error-run : (run events mounted).status_error ≡ "Failed"
unfolding run step mounted load_dns_info info_loaded on_update_dns_info timer_fires
status_error-run = refl
