-- ===== src/Examples/Assistant.antt =====
-- The page of image filtering on concrete inputs.
use gatesentry.Shared.{true, false, some, none, ◌≡◌, refl, inl, trim}
use gatesentry.AiPage.{
  Page, Configured, timed_out, load_configured, refresh_status, grok_probe, provider_probe,
  probe_for, selected_provider_probe,
}
use gatesentry.AiPage.Settled.{IsSettled, refresh_status-IsSettled}

abbrev opened : Page
opened = record {
  status = none;
  probing = false;
  status_error = "";
  filter_mode = "disabled";
  has_grok_key = false;
  has_openai_key = false;
  has_local_url = false;
  has_legacy_url = false;
}

abbrev grok_stored : Configured
grok_stored = record {
  mode = some (record { configured = none; value = some "grok" });
  grok = some (record { configured = some true; value = none });
  openai = some (record { configured = some false; value = none });
  local = none;
  legacy = none;
}

refresh_status-IsSettled_example :
    IsSettled (inl grok_stored) timed_out (refresh_status (inl grok_stored) timed_out opened)
refresh_status-IsSettled_example = refresh_status-IsSettled (inl grok_stored) timed_out opened

-- The selected provider is shown as unreachable after a status that times out.
provider_probe-timed_out :
    (provider_probe (refresh_status (inl grok_stored) timed_out opened)).state ≡ "unreachable"
unfolding refresh_status load_configured provider_probe grok_probe probe_for selected_provider_probe
    trim
provider_probe-timed_out = refl
