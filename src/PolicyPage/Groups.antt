-- ===== src/PolicyPage/Groups.antt =====
-- Every device is on exactly one policy.
use gatesentry.Shared.{
  ℕ, ◌+◌, ◌≤◌, String, true, false, List, [], ◌∷◌, ◌++◌, map, ◌≡◌, ◌∙◌, refl, ap, arith, inl, inr,
  Bool-cases, ◌==◌, ◌&&◌, not, if◌then◌else◌, includes, count, count-append, map_get,
  map_get-map_set, eq_of_beq, String_eq, ℕ_eq,
}
use gatesentry.PolicyModel.Types.{default_group_id}
use gatesentry.PolicyPage.{
  DeviceAssignment, Device, listed, push_to, push_assigned, push_unassigned, assignments_by_group,
}

-- The devices of a policy.
abbrev pub devices_of : List (String × List String) → String → List String
devices_of m g = listed (map_get m g)

-- How often a list assigns a device to a policy.
abbrev pub count_pair : String → String → List DeviceAssignment → ℕ
count_pair i g [] = 0
count_pair i g (a ∷ list) =
    let rest = count_pair i g list in if a.device_id == i && a.group_id == g then rest + 1 else rest

devices_of-push_to :
    (key id : String) (m : List (String × List String)) (g : String)
    → devices_of (push_to key id m) g
      ≡ (if key == g then devices_of m key ++ id ∷ [] else devices_of m g)
devices_of-push_to key id m g = elim (Bool-cases (key == g)) [
  | inl here ↦ rw (map_get-map_set m key (devices_of m key ++ id ∷ []) g, here)
  | inr other ↦ rw (map_get-map_set m key (devices_of m key ++ id ∷ []) g, other)
]

count-push_to :
    (key id : String) (m : List (String × List String)) (g i : String)
    → count i (devices_of (push_to key id m) g)
      ≡ count i (devices_of m g) + (if id == i && key == g then 1 else 0)
count-push_to key id m g i =
    rw (devices_of-push_to key id m g)
      (ground (arith, count-append i (devices_of m key) (id ∷ []), eq_of_beq key g))

count-push_assigned :
    (list : List DeviceAssignment) (m : List (String × List String)) (g i : String)
    → count i (devices_of (push_assigned list m) g) ≡ count i (devices_of m g) + count_pair i g list
unfolding push_assigned
count-push_assigned [] m g i = omega arith
count-push_assigned (a ∷ list) m g i = ground (
  arith,
  count-push_assigned list (push_to a.group_id a.device_id m) g i,
  count-push_to a.group_id a.device_id m g i,
)

abbrev ids : List Device → List String
ids = map (λ d. d.id)

-- How often a device goes to the default policy: once for each time it is known, unless it is
-- assigned.
abbrev pub count_default : String → String → List String → List Device → ℕ
count_default i g assigned known =
    if default_group_id == g && not (includes assigned i) then count i (ids known) else 0

count_default-cons :
    (i g : String) (assigned : List String) (d : Device) (known : List Device)
    → count_default i g assigned (d ∷ known)
      ≡ count_default i g assigned known
        + (if not (includes assigned d.id) && (d.id == i && default_group_id == g) then 1 else 0)
count_default-cons i g assigned d known = elim (Bool-cases (d.id == i)) [
  | inl same ↦ let e = ap (includes assigned) (eq_of_beq d.id i same) in rw (e, same) (ground arith)
  | inr other ↦ rw other (ground arith)
]

-- A step of the second loop.
abbrev pushed : List String → Device → List (String × List String) → List (String × List String)
pushed assigned d m = if not (includes assigned d.id) then push_to default_group_id d.id m else m

count-pushed :
    (assigned : List String) (d : Device) (m : List (String × List String)) (g i : String)
    → count i (devices_of (pushed assigned d m) g)
      ≡ count i (devices_of m g)
        + (if not (includes assigned d.id) && (d.id == i && default_group_id == g) then 1 else 0)
count-pushed assigned d m g i = elim (Bool-cases (includes assigned d.id)) [
  | inl there ↦ rw there (omega arith)
  | inr absent ↦ rw absent (count-push_to default_group_id d.id m g i)
]

count-push_unassigned :
    (assigned : List String) (known : List Device) (m : List (String × List String)) (g i : String)
    → count i (devices_of (push_unassigned assigned known m) g)
      ≡ count i (devices_of m g) + count_default i g assigned known
unfolding push_unassigned
count-push_unassigned assigned [] m g i = ground arith
count-push_unassigned assigned (d ∷ known) m g i = omega (
  arith,
  count-push_unassigned assigned known (pushed assigned d m) g i,
  count-pushed assigned d m g i,
  count_default-cons i g assigned d known,
)

devices_of-start : (g i : String) → count i (devices_of ((default_group_id, []) ∷ []) g) ≡ 0
devices_of-start g i = ground arith

-- A policy lists a device once for each of its assignments to the policy, and the default policy
-- lists it also once for each time it is known, if it has no assignment.
pub count-assignments_by_group :
    (list : List DeviceAssignment) (known : List Device) (g i : String)
    → count i (devices_of (assignments_by_group list known) g)
      ≡ count_pair i g list + count_default i g (map (λ a. a.device_id) list) known
unfolding assignments_by_group
count-assignments_by_group list known g i = omega (
  arith,
  count-push_unassigned (map (λ a. a.device_id) list) known
      (push_assigned list ((default_group_id, []) ∷ [])) g i,
  count-push_assigned list ((default_group_id, []) ∷ []) g i,
  devices_of-start g i,
)

-- The policy of a device: that of its first assignment, or the default.
abbrev pub policy_of : String → List DeviceAssignment → String
policy_of i [] = default_group_id
policy_of i (a ∷ list) =
    let rest = policy_of i list in if a.device_id == i then a.group_id else rest

abbrev pub assigned_ids : List DeviceAssignment → List String
assigned_ids = map (λ a. a.device_id)

pair_of_unassigned :
    (i g : String) (list : List DeviceAssignment)
    → count i (assigned_ids list) ≡ 0
    → count_pair i g list ≡ 0
pair_of_unassigned i g [] h = refl
pair_of_unassigned i g (a ∷ list) h = ground (arith, pair_of_unassigned i g list)

-- A device without an assignment is on the default policy.
pair_of_absent :
    (i g : String) (list : List DeviceAssignment)
    → includes (assigned_ids list) i ≡ false
    → (count_pair i g list ≡ 0) × (policy_of i list ≡ default_group_id)
pair_of_absent i g [] h = (refl, refl)
pair_of_absent i g (a ∷ list) h = ground (arith, pair_of_absent i g list)

pair_of_present :
    (i g : String) (list : List DeviceAssignment)
    → includes (assigned_ids list) i ≡ true
    → count i (assigned_ids list) ≤ 1
    → count_pair i g list ≡ (if policy_of i list == g then 1 else 0)
pair_of_present i g [] h once = cc
pair_of_present i g (a ∷ list) h once =
    ground (arith, pair_of_present i g list, pair_of_unassigned i g list)

-- If the server lists each known device once and assigns no device twice, then every known device
-- is listed once under its own policy, and under no other.
pub assignments_by_group-once :
    (list : List DeviceAssignment) (known : List Device) (g i : String)
    → count i (map (λ d. d.id) known) ≡ 1
    → count i (map (λ a. a.device_id) list) ≤ 1
    → count i (devices_of (assignments_by_group list known) g)
      ≡ (if policy_of i list == g then 1 else 0)
assignments_by_group-once list known g i known_once once =
    count-assignments_by_group list known g i ∙ elim (Bool-cases (includes (assigned_ids list) i)) [
      | inl there ↦ rw there (ground (arith, pair_of_present i g list there once))
      | inr absent ↦
          let (none_there, default) = pair_of_absent i g list absent in
          rw (absent, none_there, default) (ground arith)
    ]
