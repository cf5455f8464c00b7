-- ===== src/PolicyPage/Tools.antt =====
-- The rest of ui/src/routes/rules/policygroups.svelte: what loads the page, the categories of the
-- gateway and the tester of a site. Responses are parameters. A handler gives the page after its last
-- `await`.
pub mod Chosen
pub mod Tested
use gatesentry.Shared.{
  ℕ, String, Bool, true, false, Option, none, some, List, [], ◌∷◌, ◌≡◌, ◌⊎◌, inl, inr, ◌&&◌, ◌||◌,
  not, ◌==◌, if◌then◌else◌, truthy, trim, or_else, ◌<>◌, find, filter, map, includes, starts_with,
  map_get, String_eq,
}
use Prim.Native.String as Text
use gatesentry.PolicyModel.Types.{PolicyGroup, ApiGroup, SchedulePreset}
use gatesentry.PolicyModel.Copy.{copy_group}
use gatesentry.PolicyPage.{DeviceAssignment, Device, device_label}
use gatesentry.DeviceDialog.{Reply, outcome}

pub record PolicyTemplate : Type 0 where
  pub id : String
  pub name : String
  pub group_id : String
  pub available : Bool

pub record CategoryStatus : Type 0 where
  pub id : String
  pub name : String
  pub enabled : Bool

-- What `Promise.all` gives, if no request fails.
pub record LoadData : Type 0 where
  pub templates : List PolicyTemplate
  pub shared_limitations : List String
  pub groups : List ApiGroup
  pub categories : List CategoryStatus
  pub assignments : List DeviceAssignment
  pub devices : List Device

pub record PreviewResult : Type 0 where
  pub action : String
  pub url_blocked : Bool

-- The body of a test; a field that is not set is none.
pub record PreviewRequest : Type 0 where
  pub client_ip : String
  pub protocol : String
  pub url : Option String
  pub domain : Option String

pub record Tools : Type 0 where
  pub templates : List PolicyTemplate
  pub shared_limitations : List String
  pub groups : List PolicyGroup
  pub categories : List CategoryStatus
  pub assignments : List DeviceAssignment
  pub devices : List Device
  pub gateway_selection : List String
  pub schedule_presets : List SchedulePreset
  pub users : List String
  pub timezone : String
  pub loading : Bool
  pub saving_categories : Bool
  pub error : String
  pub success : String
  pub test_device : String
  pub test_target : String
  pub test_layer : String
  pub testing : Bool
  pub test_result : Option PreviewResult
  pub test_error : String

-- The categories that a list of them has switched on
abbrev pub enabled_ids : List CategoryStatus → List String
enabled_ids categories = map (λ (c : CategoryStatus). c.id) (filter (λ c. c.enabled) categories)

-- What loads for the rule editor: a request that fails leaves its control empty.
unfoldable pub load_supporting :
    List SchedulePreset ⊎ String
    → List (Option String) ⊎ String
    → Option String ⊎ String
    → Tools
    → Tools
load_supporting presets users timezone p = record p {
  schedule_presets = elim presets [ inl found ↦ found | inr message ↦ [] ];
  users = elim users [
    | inl found ↦ filter truthy (map (λ name. or_else name "") found)
    | inr message ↦ []
  ];
  timezone = elim timezone [ inl value ↦ or_else value p.timezone | inr message ↦ p.timezone ];
}

-- `load`, with what `Promise.all` gives: all answers, or the error of the request that failed first.
unfoldable pub load : LoadData ⊎ String → Tools → Tools
load (inl data') p = record p {
  templates = data'.templates;
  shared_limitations = data'.shared_limitations;
  groups = map copy_group data'.groups;
  categories = data'.categories;
  assignments = data'.assignments;
  devices = data'.devices;
  gateway_selection = enabled_ids data'.categories;
  error = "";
  loading = false;
}
load (inr message) p = record p { error = message; loading = false }

abbrev pub name_or : String → Option CategoryStatus → String
name_or id none = id
name_or id (some found) = found.name

unfoldable pub category_name : Tools → String → String
category_name p id = name_or id (find (λ category. category.id == id) p.categories)

abbrev pub label_or : String → Option Device → String
label_or id none = id
label_or id (some device) = device_label device

unfoldable pub device_name : Tools → String → String
device_name p id = label_or id (find (λ candidate. candidate.id == id) p.devices)

-- `assignedByGroup[groupID] || []`
abbrev pub ids_or : Option (List String) → List String
ids_or none = []
ids_or (some ids) = ids

-- `devicesNotOn`, of the sorted devices
unfoldable pub devices_not_on : List Device → List (String × List String) → String → List Device
devices_not_on sorted assigned group =
    filter (λ device. not (includes (ids_or (map_get assigned group)) device.id)) sorted

-- `saveGatewayCategories`, with the answer: the categories, and whether a download was scheduled
unfoldable pub save_gateway_categories : Reply (List CategoryStatus × Bool) → Tools → Tools
save_gateway_categories reply p =
    outcome reply
      (λ answer. record p {
        categories = answer.0;
        gateway_selection = enabled_ids answer.0;
        error = "";
        success =
            if answer.1
            then "Categories saved. The gateway is downloading the feeds now, so refresh in a moment to see the new counts."
            else "Categories saved. A download was already running, so the counts update when it finishes.";
        saving_categories = false;
      })
      (λ message. record p { error = message; success = ""; saving_categories = false })

-- `s.includes(p)`
abbrev pub text_includes : String → String → Bool
text_includes p Text.[] = starts_with p ""
text_includes p (Text.◌∷◌ c s) = starts_with p (Text.◌∷◌ c s) || text_includes p s

abbrev pub address_of : Option Device → String
address_of none = ""
address_of (some device) = or_else device.ipv4 ""

-- What `runTest` sends
unfoldable pub preview_request : String → Tools → PreviewRequest
preview_request target p =
    let is_url = text_includes "/" target in
    let url = if is_url && not (text_includes "://" target) then "https://" <> target else target in
    record {
      client_ip = address_of (find (λ candidate. candidate.id == p.test_device) p.devices);
      protocol = p.test_layer;
      url = if is_url then some url else none;
      domain = if is_url then none else some target;
    }

unfoldable pub run_test : (PreviewRequest → Reply PreviewResult) → Tools → Tools
run_test preview p =
    if not (truthy (trim p.test_target))
    then p
    else outcome (preview (preview_request (trim p.test_target) p))
        (λ result. record p { test_result = some result; test_error = ""; testing = false })
        (λ message. record p { test_result = none; test_error = message; testing = false })

unfoldable pub verdict : PreviewResult → String × String
verdict result =
    if result.action == "block" || result.url_blocked
    then ("Blocked", "red")
    else if result.action == "allow"
    then ("Allowed by policy", "green")
    else ("Not blocked by policy", "gray")

unfoldable pub template_applied : Tools → PolicyTemplate → Bool
template_applied p template = includes (map (λ (g : PolicyGroup). g.id) p.groups) template.group_id
