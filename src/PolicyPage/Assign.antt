-- ===== src/PolicyPage/Assign.antt =====
-- `writeDevicePolicy`, `setDevicePolicy` and `assignSelectedDevices` of
-- ui/src/routes/rules/policygroups.svelte. The server is a parameter: its state, and what it does
-- with a request. A request that fails gives the message of the error. A handler gives the page
-- after its last `await`.
pub mod Failure
pub mod Writes
use gatesentry.Shared.{
  String, Bool, true, false, Option, none, some, List, [], ◌∷◌, ◌≡◌, ◌≢◌, ◌⊎◌, inl, inr, ◌==◌,
  if◌then◌else◌, length, truthy, non_empty, ◌<>◌, decimal, map_get, map_set, String_eq, ℕ_eq,
}
use gatesentry.PolicyModel.Types.{default_group_id}
use gatesentry.PolicyPage.{DeviceAssignment, listed}

-- The server's assignments: the state, the two requests and the policy of a device.
pub record AssignmentApi (S : Type 0) : Type 0 where
  -- `PUT /api/devices/<id>/assignment` with a `group_id`, and the message where it fails
  pub put : String → String → S → S × Option String
  -- `GET /api/policy/assignments`, or the message where it fails
  pub get : S → List DeviceAssignment ⊎ String
  pub group_of : String → S → String

-- A request that succeeds assigns its device, where no id stands for the default policy, and no
-- request changes the policy of another device.
pub record IsSound {S : Type 0} (api : AssignmentApi S) : Type 0 where
  pub assigns :
      (d g : String) (s : S)
      → (api.put d g s).1 ≡ none
      → api.group_of d (api.put d g s).0 ≡ (if truthy g then g else default_group_id)
  pub leaves :
      (d g e : String) (s : S) → d ≢ e → api.group_of e (api.put d g s).0 ≡ api.group_of e s

-- The variables of the page that these handlers touch.
pub record Page : Type 0 where
  pub assignments : List DeviceAssignment
  pub assigning_devices : List (String × List String)
  pub saving : Bool
  pub error : String
  pub success : String

-- `groupID === DEFAULT_GROUP_ID ? "" : groupID`
abbrev pub body_group : String → String
body_group g = if g == default_group_id then "" else g

module _ {S : Type 0} (api : AssignmentApi S) where
  unfoldable pub write_device_policy : String → String → S → S × Option String
  write_device_policy d g s = api.put d (body_group g) s

  -- The loop: the first request that fails ends it.
  unfoldable pub write_all : String → List String → S → S × Option String
  write_all g [] s = (s, none)
  write_all g (d ∷ ds) s =
      let written = write_device_policy d g s in
      elim written.1 [ none ↦ write_all g ds written.0 | some message ↦ (written.0, some message) ]

  -- `error = err.message` and the `finally`
  abbrev pub failed : String → Page → Page
  failed message p = record p { error = message; success = ""; saving = false }

  -- What follows `await reloadAssignments()`, with the text of the success and the selections.
  abbrev pub reloaded :
      String → List (String × List String) → List DeviceAssignment ⊎ String → Page → Page
  reloaded text selections (inl list) p = record p {
    assignments = list;
    assigning_devices = selections;
    error = "";
    success = text;
    saving = false;
  }
  reloaded text selections (inr message) p = failed message p

  abbrev pub finish : String → List (String × List String) → S × Option String → Page → Page × S
  finish text selections (s, none) p = (reloaded text selections (api.get s) p, s)
  finish text selections (s, some message) p = (failed message p, s)

  -- `name` is `deviceName`, and `group_name` is `groupName`.
  unfoldable pub set_device_policy :
      (String → String) → (String → String) → String → String → Page × S → Page × S
  set_device_policy name group_name d g (p, s) =
      if truthy d
      then finish (name d <> " now uses " <> group_name g <> ".") p.assigning_devices
          (write_device_policy d g s) p
      else (p, s)

  unfoldable pub assign_selected_devices : (String → String) → String → Page × S → Page × S
  assign_selected_devices group_name g (p, s) =
      let selected = listed (map_get p.assigning_devices g) in
      if non_empty selected
      then finish
          (decimal (length selected)
            <> " device"
            <> (if length selected == 1 then "" else "s")
            <> " now use "
            <> group_name g
            <> ".")
          (map_set p.assigning_devices g []) (write_all g selected s) p
      else (p, s)
