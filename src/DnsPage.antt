-- ===== src/DnsPage.antt =====
-- The status of the DNS page, ui/src/routes/dns/dns.svelte. The browser's event loop is a list of events: the
-- button is pressed, a list was changed, the timer fires, a waiting call settles, the page is left.
pub mod Live
use gatesentry.Shared.{
  ℕ, ◌+◌, ◌-◌, String, Bool, true, false, Option, none, some, List, [], ◌∷◌, ◌⊎◌, inl, inr, ◌||◌,
  if◌then◌else◌, ltb,
}
use gatesentry.ListEditors.{error_text}

pub record DnsInfo : Type 0 where
  pub number_domains_blocked : Option ℕ
  pub last_updated : Option ℕ
  pub next_update : Option ℕ

pub record Page : Type 0 where
  pub dns_info : Option DnsInfo
  pub loading : Bool
  pub refreshing : Bool
  pub status_error : String
  pub refresh_timer : Bool  -- whether the timer is set
  pub destroyed : Bool
  pub requests : ℕ  -- the calls that wait

-- `loadDnsInfo` up to its `await`
unfoldable pub load_dns_info : Page → Page
load_dns_info p =
    if p.refreshing || p.destroyed
    then p
    else record p { refreshing = true; status_error = ""; requests = p.requests + 1 }

-- `loadDnsInfo` from its `await` on
unfoldable pub info_loaded : DnsInfo ⊎ String → Page → Page
info_loaded (inl info) p = record p {
  dns_info = some info;
  loading = false;
  refreshing = false;
  requests = p.requests - 1;
}
info_loaded (inr message) p = record p {
  status_error = error_text message "DNS status could not be loaded.";
  loading = false;
  refreshing = false;
  requests = p.requests - 1;
}

unfoldable pub on_update_dns_info : Page → Page
on_update_dns_info p = record p { dns_info = none; loading = true; refresh_timer = true }

-- The callback of the timer
unfoldable pub timer_fires : Page → Page
timer_fires p = load_dns_info (record p { refresh_timer = false })

-- `onDestroy`
unfoldable pub destroy : Page → Page
destroy p = record p { destroyed = true; refresh_timer = false }

-- The page after `onMount`
unfoldable pub mounted : Page
mounted = load_dns_info (record {
  dns_info = none;
  loading = true;
  refreshing = false;
  status_error = "";
  refresh_timer = false;
  destroyed = false;
  requests = 0;
})

pub data Event : Type 0 where
  refresh_pressed list_changed timer_fired left : Event
  settled : DnsInfo ⊎ String → Event

unfoldable pub step : Event → Page → Page
step refresh_pressed p = load_dns_info p
step list_changed p = on_update_dns_info p
step timer_fired p = if p.refresh_timer then timer_fires p else p
step left p = destroy p
step (settled reply) p = if ltb 0 p.requests then info_loaded reply p else p

unfoldable pub run : List Event → Page → Page
run [] p = p
run (e ∷ es) p = run es (step e p)
