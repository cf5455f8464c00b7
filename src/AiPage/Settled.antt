-- ===== src/AiPage/Settled.antt =====
-- What a refresh of the status leaves.
use gatesentry.Shared.{
  String, Bool, true, false, none, some, ◌≡◌, refl, ◌⊎◌, inl, inr, ◌==◌, truthy, or_else, if_cases,
  String_eq,
}
use gatesentry.AiPage.{
  Probe, StatusSnapshot, Page, Configured, StatusReply, answered, invalid, timed_out, failed,
  status_failed, load_configured, refresh_status, probe_for, selected_provider_probe, grok_probe,
  chatgpt_probe, local_probe, provider_probe,
}

-- No check runs. Either the five settings and the status were answered and the page shows that status and no
-- error, or it shows an error, no status, and not that the selected provider is reachable or still checked.
abbrev pub IsSettled : Configured ⊎ String → StatusReply → Page → Type 0
IsSettled configured reply p =
    (p.probing ≡ false)
    × (((settings : Configured) × (snapshot : StatusSnapshot) × (configured ≡ inl settings)
          × (reply ≡ answered snapshot)
          × (p.status ≡ some snapshot)
          × (p.status_error ≡ ""))
        ⊎ ((truthy p.status_error ≡ true)
            × (p.status ≡ none)
            × ((provider_probe p).state == "ok" ≡ false)
            × ((provider_probe p).state == "checking" ≡ false)))

abbrev IsIdle : Probe → Type 0
IsIdle probe = (probe.state == "ok" ≡ false) × (probe.state == "checking" ≡ false)

probe_for-IsIdle : (configured : Bool) → IsIdle (probe_for none false configured)
unfolding probe_for
probe_for-IsIdle true = (refl, refl)
probe_for-IsIdle false = (refl, refl)

selected_provider_probe-IsIdle :
    (mode : String) (grok chatgpt local : Probe)
    → IsIdle grok
    → IsIdle chatgpt
    → IsIdle local
    → IsIdle (selected_provider_probe none mode grok chatgpt local)
unfolding selected_provider_probe
selected_provider_probe-IsIdle mode grok chatgpt local g c l =
    let selected = or_else (some mode) "disabled" in
    if_cases IsIdle (selected == "disabled") (λ off. (refl, refl))
      (λ on.
        if_cases IsIdle (selected == "grok") (λ e. g)
          (λ ne.
            if_cases IsIdle (selected == "chatgpt") (λ e. c)
              (λ ne. if_cases IsIdle (selected == "local") (λ e. l) (λ ne. (refl, refl)))))

status_failed-IsSettled :
    (message : String) (configured : Configured ⊎ String) (reply : StatusReply) (p : Page)
    → IsSettled configured reply (status_failed message p)
unfolding provider_probe grok_probe chatgpt_probe local_probe
status_failed-IsSettled message configured reply p =
    let (ok, busy) =
      selected_provider_probe-IsIdle p.filter_mode (probe_for none false p.has_grok_key)
        (probe_for none false p.has_openai_key) (probe_for none false p.has_local_url)
        (probe_for-IsIdle p.has_grok_key) (probe_for-IsIdle p.has_openai_key)
        (probe_for-IsIdle p.has_local_url) in
    (
      refl,
      inr (
        if_cases (λ (m : String). truthy m ≡ true) (truthy message) (λ h. h) (λ h. refl),
        refl,
        ok,
        busy,
      ),
    )

-- After a refresh no check runs. Either the five settings and the status were answered and the page shows that
-- status and no error, or it shows an error, no status, and not that the selected provider is reachable or still
-- checked.
pub refresh_status-IsSettled :
    (configured : Configured ⊎ String) (reply : StatusReply) (p : Page)
    → IsSettled configured reply (refresh_status configured reply p)
unfolding refresh_status load_configured
refresh_status-IsSettled (inr message) reply p =
    status_failed-IsSettled message (inr message) reply
      (record p { probing = true; status_error = "" })
refresh_status-IsSettled (inl configured) (answered snapshot) p =
    (refl, inl (configured, snapshot, refl, refl, refl, refl))
refresh_status-IsSettled (inl configured) invalid p =
    status_failed-IsSettled "The status response was not valid." (inl configured) invalid
      (load_configured configured (record p { probing = true; status_error = "" }))
refresh_status-IsSettled (inl configured) timed_out p =
    status_failed-IsSettled "Status check timed out." (inl configured) timed_out
      (load_configured configured (record p { probing = true; status_error = "" }))
refresh_status-IsSettled (inl configured) (failed message) p =
    status_failed-IsSettled message (inl configured) (failed message)
      (load_configured configured (record p { probing = true; status_error = "" }))
