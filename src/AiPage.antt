-- ===== src/AiPage.antt =====
-- The page of image filtering, ui/src/routes/ai/ai.svelte. Replies are parameters, texts are in English, and
-- `refresh_status` gives the page after its last `await`.
pub mod Settled
use gatesentry.Shared.{
  String, Bool, true, false, Option, none, some, ◌⊎◌, inl, inr, not, ◌==◌, if◌then◌else◌, truthy,
  or_else, trim, String_eq,
}
use gatesentry.ListEditors.{error_text}

pub record Probe : Type 0 where
  pub state : String
  pub detail : Option String

pub record StatusSnapshot : Type 0 where
  pub mode : Option String
  pub grok : Option Probe
  pub chatgpt : Option Probe
  pub local : Option Probe
  pub legacy : Option Probe

abbrev pub checking : Probe
checking = record { state = "checking"; detail = some "" }

abbrev pub not_configured : Probe
not_configured = record { state = "not_configured"; detail = some "" }

-- The reply for one setting; `value` is `Value ?? value`, and null or a missing field is none.
pub record SettingReply : Type 0 where
  pub configured : Option Bool
  pub value : Option String

abbrev pub setting_value : Option SettingReply → String
setting_value none = ""
setting_value (some reply) = trim (or_else reply.value "")

abbrev pub value_or_flag : Option Bool → String → Bool
value_or_flag none value = not (value == "")
value_or_flag (some configured) value = configured

abbrev pub nonempty : Option SettingReply → Bool
nonempty none = false
nonempty (some reply) = value_or_flag reply.configured (setting_value (some reply))

pub record Page : Type 0 where
  pub status : Option StatusSnapshot
  pub probing : Bool
  pub status_error : String
  pub filter_mode : String
  pub has_grok_key : Bool
  pub has_openai_key : Bool
  pub has_local_url : Bool
  pub has_legacy_url : Bool

-- The five replies of `loadConfigured`
pub record Configured : Type 0 where
  pub mode : Option SettingReply
  pub grok : Option SettingReply
  pub openai : Option SettingReply
  pub local : Option SettingReply
  pub legacy : Option SettingReply

unfoldable pub load_configured : Configured → Page → Page
load_configured r p = record p {
  filter_mode = or_else (some (setting_value r.mode)) "disabled";
  has_grok_key = nonempty r.grok;
  has_openai_key = nonempty r.openai;
  has_local_url = nonempty r.local;
  has_legacy_url = nonempty r.legacy;
}

-- What the race of the status and the timer of twelve seconds gives.
pub data StatusReply : Type 0 where
  answered : StatusSnapshot → StatusReply
  invalid timed_out : StatusReply
  failed : String → StatusReply

-- The catch and finally blocks of `refreshStatus`
abbrev pub status_failed : String → Page → Page
status_failed message p = record p {
  status = none;
  status_error = error_text message "AI provider status could not be checked.";
  probing = false;
}

abbrev pub status_loaded : StatusReply → Page → Page
status_loaded (answered snapshot) p = record p {
  status = some snapshot;
  filter_mode = or_else snapshot.mode p.filter_mode;
  probing = false;
}
status_loaded invalid p = status_failed "The status response was not valid." p
status_loaded timed_out p = status_failed "Status check timed out." p
status_loaded (failed message) p = status_failed message p

abbrev pub configured_loaded : Configured ⊎ String → StatusReply → Page → Page
configured_loaded (inl configured) reply p = status_loaded reply (load_configured configured p)
configured_loaded (inr message) reply p = status_failed message p

unfoldable pub refresh_status : Configured ⊎ String → StatusReply → Page → Page
refresh_status configured reply p =
    configured_loaded configured reply (record p { probing = true; status_error = "" })

-- `probeFor`, with `snapshot?.[key]`
unfoldable pub probe_for : Option Probe → Bool → Bool → Probe
probe_for (some probe) in_flight configured = probe
probe_for none in_flight configured =
    if not configured
    then not_configured
    else if in_flight
    then checking
    else record { state = "unreachable"; detail = some "Status check did not complete" }

abbrev pub probe_in : (StatusSnapshot → Option Probe) → Option StatusSnapshot → Option Probe
probe_in key none = none
probe_in key (some snapshot) = key snapshot

abbrev pub mode_in : Option StatusSnapshot → Option String
mode_in none = none
mode_in (some snapshot) = snapshot.mode

unfoldable pub selected_provider_probe :
    Option StatusSnapshot → String → Probe → Probe → Probe → Probe
selected_provider_probe snapshot mode grok chatgpt local =
    let selected = or_else (mode_in snapshot) (or_else (some mode) "disabled") in
    if selected == "disabled"
    then record { state = "disabled"; detail = some "Image filtering is off" }
    else if selected == "grok"
    then grok
    else if selected == "chatgpt"
    then chatgpt
    else if selected == "local"
    then local
    else not_configured

unfoldable pub grok_probe : Page → Probe
grok_probe p = probe_for (probe_in (λ s. s.grok) p.status) p.probing p.has_grok_key

unfoldable pub chatgpt_probe : Page → Probe
chatgpt_probe p = probe_for (probe_in (λ s. s.chatgpt) p.status) p.probing p.has_openai_key

unfoldable pub local_probe : Page → Probe
local_probe p = probe_for (probe_in (λ s. s.local) p.status) p.probing p.has_local_url

unfoldable pub legacy_probe : Page → Probe
legacy_probe p = probe_for (probe_in (λ s. s.legacy) p.status) p.probing p.has_legacy_url

unfoldable pub provider_probe : Page → Probe
provider_probe p =
    selected_provider_probe p.status p.filter_mode (grok_probe p) (chatgpt_probe p) (local_probe p)

abbrev pub provider_label : String → String
provider_label mode =
    if mode == "grok"
    then "Grok"
    else if mode == "chatgpt"
    then "ChatGPT"
    else if mode == "local"
    then "Local LLM"
    else "Disabled"

abbrev pub tag_type : String → String
tag_type state =
    if state == "ok"
    then "green"
    else if state == "unauthorized"
    then "magenta"
    else if state == "unreachable"
    then "red"
    else if state == "checking"
    then "cool-gray"
    else "gray"

abbrev pub tag_label : String → String
tag_label state =
    if state == "ok"
    then "Reachable"
    else if state == "unauthorized"
    then "Invalid key"
    else if state == "unreachable"
    then "Unreachable"
    else if state == "not_configured"
    then "Not configured"
    else if state == "disabled"
    then "Disabled"
    else if state == "checking"
    then "Checking…"
    else state
