-- ===== src/DeviceNames.antt =====
-- Names for the addresses of decision rows: ui/src/lib/devicenames.ts. A `Map` is a list of its
-- entries, in the order of insertion.
pub mod Lookup
pub mod Order
use gatesentry.Shared.{
  map_get, map_set, ℕ, ◌+◌, String, Bool, true, false, Option, none, some, List, [], ◌∷◌, ◌++◌,
  ◌==◌, if◌then◌else◌, includes, truthy, trim, ◌<>◌, ℕ_eq, String_eq,
}

pub record DeviceNameSource : Type 0 where
  pub manual_name : Option String
  pub ipv4 : Option String
  pub ipv6 : Option String

-- `[address].filter(Boolean)`
abbrev pub given : Option String → List String
given none = []
given (some s) = if truthy s then s ∷ [] else []

-- The values of `new Set(list)`, each once, for the two addresses that a device can have.
abbrev pub distinct : List String → List String
distinct [] = []
distinct (x ∷ xs) = let rest = distinct xs in if includes rest x then rest else x ∷ rest

unfoldable pub addresses : DeviceNameSource → List String
addresses d = distinct (given d.ipv4 ++ given d.ipv6)

abbrev number_or_zero : Option ℕ → ℕ
number_or_zero none = 0
number_or_zero (some n) = n

unfoldable pub claim_all : List String → List (String × ℕ) → List (String × ℕ)
claim_all [] claims = claims
claim_all (ip ∷ ips) claims =
    claim_all ips (map_set claims ip (number_or_zero (map_get claims ip) + 1))

-- The first loop: how many devices claim an address.
unfoldable pub claims_from : List DeviceNameSource → List (String × ℕ) → List (String × ℕ)
claims_from [] claims = claims
claims_from (d ∷ ds) claims = claims_from ds (claim_all (addresses d) claims)

-- `claims.get(ip) === 1`
abbrev pub is_sole : Option ℕ → Bool
is_sole none = false
is_sole (some n) = n == 1

unfoldable pub name_all :
    List (String × ℕ) → String → List String → List (String × String) → List (String × String)
name_all claims name [] names = names
name_all claims name (ip ∷ ips) names =
    name_all claims name ips (if is_sole (map_get claims ip) then map_set names ip name else names)

-- `device.manual_name?.trim()`, where it is not empty
abbrev pub own_name : DeviceNameSource → Option String
own_name d = elim d.manual_name [
  | none ↦ none
  | some s ↦ (let name = trim s in if truthy name then some name else none)
]

abbrev pub name_device :
    List (String × ℕ)
    → DeviceNameSource
    → Option String
    → List (String × String)
    → List (String × String)
name_device claims d none names = names
name_device claims d (some name) names = name_all claims name (addresses d) names

-- The second loop.
unfoldable pub names_from :
    List (String × ℕ) → List DeviceNameSource → List (String × String) → List (String × String)
names_from claims [] names = names
names_from claims (d ∷ ds) names = names_from claims ds (name_device claims d (own_name d) names)

abbrev pub devices_or : Option (List DeviceNameSource) → List DeviceNameSource
devices_or none = []
devices_or (some ds) = ds

unfoldable pub build_device_name_map : Option (List DeviceNameSource) → List (String × String)
build_device_name_map devices =
    names_from (claims_from (devices_or devices) []) (devices_or devices) []

abbrev named_address : Option String → String → String
named_address none ip = ip
named_address (some name) ip = if truthy name then name <> " (" <> ip <> ")" else ip

unfoldable pub format_device_address : List (String × String) → String → String
format_device_address names ip = named_address (map_get names ip) ip
