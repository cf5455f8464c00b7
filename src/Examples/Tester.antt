-- ===== src/Examples/Tester.antt =====
-- The categories of the gateway and the tester on concrete inputs.
use gatesentry.Shared.{true, false, none, some, [], ◌∷◌, ◌≡◌, refl, String_eq}
use gatesentry.PolicyPage.Tools.{CategoryStatus, Tools, preview_request, verdict}
use gatesentry.PolicyPage.Tools.Tested.{IsAddressed, preview_request-IsAddressed}

abbrev gambling : CategoryStatus
gambling = record { id = "gambling"; name = "Gambling"; enabled = false }

abbrev social : CategoryStatus
social = record { id = "social"; name = "Social media"; enabled = true }

abbrev tools : Tools
tools = record {
  templates = [];
  shared_limitations = [];
  groups = [];
  categories = gambling ∷ social ∷ [];
  assignments = [];
  devices = [];
  gateway_selection = "gambling" ∷ "removed" ∷ [];
  schedule_presets = [];
  users = [];
  timezone = "UTC";
  loading = false;
  saving_categories = false;
  error = "";
  success = "";
  test_device = "";
  test_target = "example.com/a";
  test_layer = "dns";
  testing = false;
  test_result = none;
  test_error = "";
}

tester_runs :
    ((preview_request "example.com/a" tools).url ≡ some "https://example.com/a")
    × ((preview_request "example.com" tools).domain ≡ some "example.com")
    × (verdict (record { action = "none"; url_blocked = true }) ≡ ("Blocked", "red"))
unfolding preview_request verdict
tester_runs = (refl, refl, refl)

preview_request-IsAddressed_example :
    IsAddressed "example.com/a" (preview_request "example.com/a" tools)
preview_request-IsAddressed_example = preview_request-IsAddressed "example.com/a" tools
