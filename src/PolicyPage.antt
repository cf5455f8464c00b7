-- ===== src/PolicyPage.antt =====
-- The policies page, ui/src/routes/rules/policygroups.svelte: which devices a policy has, and the
-- handlers that assign devices.
pub mod Groups
pub mod Assign
pub mod Drafts
pub mod Tools
use gatesentry.Shared.{
  ℕ, String, Bool, true, false, Option, none, some, List, [], ◌∷◌, ◌++◌, map, ◌==◌, ◌&&◌, not,
  if◌then◌else◌, includes, find, truthy, ◌<>◌, map_get, map_set, String_eq,
}
use gatesentry.PolicyModel.Types.{default_group_id}

pub record DeviceAssignment : Type 0 where
  pub device_id : String
  pub group_id : String

pub record Device : Type 0 where
  pub id : String
  pub display_name : Option String
  pub hostnames : Option (List String)
  pub ipv4 : Option String

-- `map[key] || []`
abbrev pub listed : Option (List String) → List String
listed none = []
listed (some xs) = xs

-- `(map[key] ||= []).push(id)`
abbrev pub push_to : String → String → List (String × List String) → List (String × List String)
push_to key id m = map_set m key (listed (map_get m key) ++ id ∷ [])

unfoldable pub push_assigned :
    List DeviceAssignment → List (String × List String) → List (String × List String)
push_assigned [] m = m
push_assigned (a ∷ list) m = push_assigned list (push_to a.group_id a.device_id m)

unfoldable pub push_unassigned :
    List String → List Device → List (String × List String) → List (String × List String)
push_unassigned assigned [] m = m
push_unassigned assigned (d ∷ known) m =
    push_unassigned assigned known
      (if not (includes assigned d.id) then push_to default_group_id d.id m else m)

unfoldable pub assignments_by_group :
    List DeviceAssignment → List Device → List (String × List String)
assignments_by_group list known =
    push_unassigned (map (λ a. a.device_id) list) known
      (push_assigned list ((default_group_id, []) ∷ []))

-- `a || b`, for two texts that may be missing
abbrev first_of : Option String → Option String → Option String
first_of none o = o
first_of (some s) o = if truthy s then some s else o

abbrev first_hostname : Option (List String) → Option String
first_hostname none = none
first_hostname (some []) = none
first_hostname (some (h ∷ hs)) = some h

abbrev text_or : Option String → String → String
text_or none d = d
text_or (some s) d = s

abbrev with_address : String → Option String → String
with_address name none = name
with_address name (some ip) =
    if truthy ip && not (name == ip) then name <> " (" <> ip <> ")" else name

unfoldable pub device_label : Device → String
device_label d =
    let name =
      text_or
        (first_of d.display_name (first_of (first_hostname d.hostnames) (first_of d.ipv4 none)))
        d.id in
    with_address name d.ipv4
