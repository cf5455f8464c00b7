-- ===== src/Home.antt =====
-- The overview, ui/src/routes/home/home.svelte. Responses and the translator are parameters; a handler
-- gives the page after its last `await`. The texts of dates and the formats of numbers are left out.
pub mod Readiness
use gatesentry.Shared.{
  ℕ, ◌+◌, String, Bool, true, false, Option, none, some, List, [], ◌∷◌, ◌++◌, ◌⊎◌, inl, inr, ◌&&◌,
  not, ◌==◌, if◌then◌else◌, truthy, or_else, ◌<>◌, decimal, join, filter, map, includes, non_empty,
  String_eq,
}

pub record CheckStep : Type 0 where
  pub state : String
  pub action : Option String
  pub detail : Option String

pub record OnboardingStep : Type 0 where
  pub name : String
  pub state : String

pub record OnboardingStatus : Type 0 where
  pub listen_addr : String
  pub device_count : ℕ
  pub bind : CheckStep
  pub resolver : CheckStep
  pub blocklist : CheckStep
  pub steps : List OnboardingStep
  pub first_explained_protection_at : Option String

pub record Summary : Type 0 where
  pub total : ℕ
  pub block : Option ℕ

pub record Notice : Type 0 where
  pub key : String
  pub title : String
  pub subtitle : String

-- What the protection check answers.
pub record CheckReply : Type 0 where
  pub state : String
  pub detail : String
  pub action : Option String

pub record Page : Type 0 where
  pub status : Option OnboardingStatus
  pub summary : Option Summary
  pub https_on : Option Bool
  pub status_error : String
  pub check_state : String
  pub check_detail : String
  pub check_action : String
  pub checking : Bool

abbrev pub measured_steps : List String
measured_steps = "resolver" ∷ "blocklist" ∷ "first_device" ∷ "protection_check" ∷ []

unfoldable pub load_status : OnboardingStatus ⊎ String → Page → Page
load_status (inl status) p = record p { status = some status; status_error = "" }
load_status (inr message) p = record p { status_error = "Unable to load the gateway status." }

unfoldable pub load_summary : Summary ⊎ String → Page → Page
load_summary (inl summary) p = record p { summary = some summary }
load_summary (inr message) p = record p { summary = none }

-- The reply is the value of the setting, if there is one.
unfoldable pub load_https : Option String ⊎ String → Page → Page
load_https (inl value) p = record p { https_on = some (or_else value "" == "true") }
load_https (inr message) p = record p { https_on = none }

unfoldable pub refresh :
    OnboardingStatus ⊎ String → Summary ⊎ String → Option String ⊎ String → Page → Page
refresh status summary https p = load_https https (load_summary summary (load_status status p))

-- `runProtectionCheck`, with its reply and that of the status
unfoldable pub run_protection_check : CheckReply ⊎ String → OnboardingStatus ⊎ String → Page → Page
run_protection_check (inl reply) status p = record (load_status status p) {
  check_state = reply.state;
  check_detail = reply.detail;
  check_action = or_else reply.action "";
  checking = false;
}
run_protection_check (inr message) status p = record p {
  check_state = "failed";
  check_detail = "The protection check did not complete.";
  check_action = "Verify the DNS listener and upstream resolver, then retry the check.";
  checking = false;
}

abbrev pub unreachable_hosts : List String
unreachable_hosts = "" ∷ "0.0.0.0" ∷ "::" ∷ "[::]" ∷ "127.0.0.1" ∷ "::1" ∷ []

abbrev pub listen_addr_of : Option OnboardingStatus → String
listen_addr_of none = ""
listen_addr_of (some status) = status.listen_addr

unfoldable pub dns_host : Page → String
dns_host p =
    if includes unreachable_hosts (listen_addr_of p.status)
    then "<gatesentry-host-ip>"
    else listen_addr_of p.status

abbrev pub steps_of : Option OnboardingStatus → List OnboardingStep
steps_of none = []
steps_of (some status) = status.steps

-- `$: readiness`, `$: pendingIndex` and `$: setupDone`; no pending step is none.
unfoldable pub readiness : Page → List OnboardingStep
readiness p = filter (λ step. includes measured_steps step.name) (steps_of p.status)

abbrev pub next_index : Option ℕ → Option ℕ
next_index none = none
next_index (some i) = some (i + 1)

abbrev pub first_pending : List OnboardingStep → Option ℕ
first_pending [] = none
first_pending (step ∷ steps) =
    let rest = next_index (first_pending steps) in if not (step.state == "ok") then some 0 else rest

abbrev pub is_none {ℓ} : {A : Type ℓ} → Option A → Bool
is_none none = true
is_none (some a) = false

unfoldable pub setup_done : Page → Bool
setup_done p = non_empty (readiness p) && is_none (first_pending (readiness p))

module _ (translator : String → String) where
  unfoldable pub step_label : String → String
  step_label name =
      if name == "resolver"
      then translator "Resolver and listener"
      else if name == "blocklist"
      then translator "Blocklists loaded"
      else if name == "first_device"
      then translator "First device discovered"
      else translator "Protection verified"

  abbrev pub bind_notice : CheckStep → List Notice
  bind_notice bind =
      if not (bind.state == "ok")
      then record {
        key = "bind";
        title = translator "DNS listener is not ready";
        subtitle = join " " (filter truthy (or_else bind.detail "" ∷ or_else bind.action "" ∷ []));
      }
        ∷ []
      else []

  -- A notice that needs an action to name
  abbrev pub action_notice : (key title : String) → CheckStep → List Notice
  action_notice key title check =
      if not (check.state == "ok") && truthy (or_else check.action "")
      then record { key = key; title = translator title; subtitle = or_else check.action "" } ∷ []
      else []

  unfoldable pub collect_notices : OnboardingStatus → List Notice
  collect_notices current =
      bind_notice current.bind
      ++ (action_notice "resolver" "Upstream resolver is not reachable" current.resolver
          ++ action_notice "blocklist" "Blocklist empty" current.blocklist)
