-- ===== src/Examples/Assignments.antt =====
-- The assignment of devices, ui/src/routes/rules/policygroups.svelte, against a small server.
use gatesentry.Shared.{
  String, false, Option, none, some, List, [], ◌∷◌, map, ◌≡◌, ◌≢◌, ◌∙◌, refl, ap, arith, inl, inr,
  ◌==◌, if◌then◌else◌, truthy, count, map_get, map_set, map_get-map_set, All, String_eq, ℕ_eq,
  decimal, beq_self, eq_of_beq, Bool-cases,
}
use gatesentry.PolicyModel.Types.{default_group_id}
use gatesentry.PolicyPage.{
  DeviceAssignment, Device, assignments_by_group, push_assigned, push_unassigned, device_label,
}
use gatesentry.PolicyPage.Groups.{devices_of, policy_of, assignments_by_group-once}
use gatesentry.PolicyPage.Assign.{
  AssignmentApi, IsSound, Page, write_device_policy, write_all, set_device_policy,
  assign_selected_devices,
}
use gatesentry.PolicyPage.Assign.Writes.{
  assign_selected_devices_lem, assign_selected_devices-partial,
}

abbrev device : String → Device
device i = record { id = i; display_name = some i; hostnames = none; ipv4 = some "192.0.2.7" }

abbrev known : List Device
known = device "tv" ∷ device "phone" ∷ []

abbrev assigned : List DeviceAssignment
assigned = record { device_id = "phone"; group_id = "kids" } ∷ []

group_tests :
    (assignments_by_group assigned known ≡ ("default", "tv" ∷ []) ∷ ("kids", "phone" ∷ []) ∷ [])
    × (device_label (device "tv") ≡ "tv (192.0.2.7)")
unfolding assignments_by_group push_assigned push_unassigned device_label
group_tests = (refl, refl)

assignments_by_group-once_example :
    count "tv" (devices_of (assignments_by_group assigned known) "default")
    ≡ (if policy_of "tv" assigned == "default" then 1 else 0)
assignments_by_group-once_example =
    assignments_by_group-once assigned known "default" "tv" refl (omega arith)

abbrev Store : Type 0
Store = List (String × String)

abbrev group_or_default : Option String → String
group_or_default none = default_group_id
group_or_default (some g) = g

abbrev group_in : String → Store → String
group_in d s = group_or_default (map_get s d)

-- A server that answers for every device but one.
abbrev put : String → String → Store → Store × Option String
put d g s =
    if d == "offline"
    then (s, some "unreachable")
    else (map_set s d (if truthy g then g else default_group_id), none)

abbrev api : AssignmentApi Store
api = record {
  put = put;
  get = λ s. inl (map (λ e. record { device_id = e.0; group_id = e.1 }) s);
  group_of = group_in;
}

group_in-map_set :
    (s : Store) (d v e : String) → group_in e (map_set s d v) ≡ (if d == e then v else group_in e s)
group_in-map_set s d v e =
    ap group_or_default (map_get-map_set s d v e)
    ∙ elim (Bool-cases (d == e)) [ inl same ↦ rw same | inr other ↦ rw other ]

other_branch : (d e v w : String) → d ≢ e → (if d == e then v else w) ≡ w
other_branch d e v w h = elim (Bool-cases (d == e)) [
  | inl same ↦ absurd (h (eq_of_beq d e same))
  | inr other ↦ rw other
]

api-IsSound : IsSound api
api-IsSound = record { assigns = assigns; leaves = leaves }
  where
    assigns :
        (d g : String) (s : Store)
        → (put d g s).1 ≡ none
        → group_in d (put d g s).0 ≡ (if truthy g then g else default_group_id)
    assigns d g s h = elim (Bool-cases (d == "offline")) [
      | inl down ↦ absurd (some_none (rw down at h))
      | inr up ↦ rw up (group_in-map_set s d _ d ∙ rw (beq_self d))
    ]
      where
        some_none : {m : String} → ¬ (some m ≡ none)
        some_none e = cc

    leaves : (d g e : String) (s : Store) → d ≢ e → group_in e (put d g s).0 ≡ group_in e s
    leaves d g e s h = elim (Bool-cases (d == "offline")) [
      | inl down ↦ rw down
      | inr up ↦ rw up (group_in-map_set s d _ e ∙ other_branch d e _ _ h)
    ]

abbrev page : List String → Page
page selected = record {
  assignments = [];
  assigning_devices = ("kids", selected) ∷ [];
  saving = false;
  error = "";
  success = "";
}

abbrev name : String → String
name g = g

assign_tests :
    ((assign_selected_devices api name "kids" (page ("tv" ∷ []), [])).0.success
      ≡ "1 device now use kids.")
    × ((assign_selected_devices api name "kids" (page ("tv" ∷ "offline" ∷ []), [])).0.error
        ≡ "unreachable")
    × ((set_device_policy api name name "tv" "kids" (page [], [])).0.success ≡ "tv now uses kids.")
unfolding assign_selected_devices set_device_policy write_all write_device_policy decimal
assign_tests = (refl, refl, refl)

assign_selected_devices_lem_example :
    All
      (λ d.
        group_in d (assign_selected_devices api name "kids" (page ("tv" ∷ "phone" ∷ []), [])).1
        ≡ "kids")
      ("tv" ∷ "phone" ∷ [])
assign_selected_devices_lem_example =
    assign_selected_devices_lem api api-IsSound name "kids" (page ("tv" ∷ "phone" ∷ [])) [] refl
      (unfold write_all write_device_policy in refl)

assign_selected_devices-partial_example :
    (group_in "tv" (assign_selected_devices api name "kids" (page ("tv" ∷ "offline" ∷ []), [])).1
      ≡ "kids")
    × ((assign_selected_devices api name "kids" (page ("tv" ∷ "offline" ∷ []), [])).0.assignments
        ≡ [])
    × ((assign_selected_devices api name "kids" (page ("tv" ∷ "offline" ∷ []), [])).0.error
        ≡ "unreachable")
assign_selected_devices-partial_example =
    assign_selected_devices-partial api api-IsSound name "kids" (page ("tv" ∷ "offline" ∷ [])) []
      "tv" ("offline" ∷ []) "unreachable" refl refl refl (unfold write_device_policy in refl)
      (unfold write_all write_device_policy in refl)
