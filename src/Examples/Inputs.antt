-- ===== src/Examples/Inputs.antt =====
-- Device names, notifications and the list inputs on small inputs.
use gatesentry.Shared.{
  map_get, ℕ, none, some, List, [], ◌∷◌, ◌≡◌, refl, arith, count, trim, to_lower, is_space,
  String_eq, ℕ_eq,
}
use gatesentry.DeviceNames.{
  DeviceNameSource, addresses, claim_all, claims_from, name_all, names_from, build_device_name_map,
  format_device_address,
}
use gatesentry.DeviceNames.Lookup.{claimants, sole_name, map_get-build_device_name_map}
use gatesentry.Notifications.{Notification, Message, add, remove}
use gatesentry.Notifications.Ids.{ids, add-remove_duplicate}
use gatesentry.GroupForm.Rule.Entries.{IsDistinct}
use gatesentry.ListInputs.{push_all, typed_values, toggle, stored}
use gatesentry.ListInputs as ListInputs
use gatesentry.ListInputs.Clean.{clean, pieces}

abbrev tablet : DeviceNameSource
tablet = record {
  manual_name = some " Tablet ";
  ipv4 = some "192.0.2.10";
  ipv6 = some "2001:db8::10";
}

abbrev unnamed : DeviceNameSource
unnamed = record { manual_name = none; ipv4 = some "192.0.2.40"; ipv6 = some "" }

abbrev named : DeviceNameSource
named = record { manual_name = some "Named"; ipv4 = some "192.0.2.40"; ipv6 = none }

abbrev devices : List DeviceNameSource
devices = tablet ∷ unnamed ∷ named ∷ []

-- The cases of the program's own tests: a trimmed name, an unknown address, a shared address.
name_tests :
    (format_device_address (build_device_name_map (some devices)) "192.0.2.10"
      ≡ "Tablet (192.0.2.10)")
    × (format_device_address (build_device_name_map (some devices)) "192.0.2.99" ≡ "192.0.2.99")
    × (format_device_address (build_device_name_map (some devices)) "192.0.2.40" ≡ "192.0.2.40")
unfolding format_device_address build_device_name_map names_from claims_from claim_all name_all
    addresses trim
name_tests = (refl, refl, refl)

map_get-build_device_name_map_example :
    map_get (build_device_name_map (some devices)) "192.0.2.40"
    ≡ sole_name (claimants "192.0.2.40" devices)
map_get-build_device_name_map_example = map_get-build_device_name_map devices "192.0.2.40"

abbrev saved : Message
saved = record { title = "Saved"; subtitle = ""; kind = "success"; timeout = none }

abbrev toast : ℕ → Notification
toast i = record { id = i; title = "Saved"; subtitle = ""; kind = "success"; timeout = 1000 }

abbrev toasts : List Notification
toasts = toast 1 ∷ toast 2 ∷ []

toast_tests :
    (add saved [] ≡ toast 1 ∷ []) × (add saved (remove (toast 1) toasts) ≡ toast 2 ∷ toast 2 ∷ [])
unfolding add remove
toast_tests = (refl, refl)

add-remove_duplicate_example : count 2 (ids (add saved (remove (toast 1) toasts))) ≡ 2
add-remove_duplicate_example =
    add-remove_duplicate saved (toast 1) toasts (refl, (refl, tt)) (omega arith) (omega arith)

-- Pasted addresses.
clean_tests :
    (clean " HTTPS://www.Example.com:443/path?q#f " ≡ "www.example.com")
    × (clean "example.com." ≡ "example.com")
    × (typed_values "a.com, b.com,,a.com " ≡ "a.com" ∷ "b.com" ∷ "a.com" ∷ [])
    × (ListInputs.add ("a.com" ∷ []) "a.com" ≡ none)
unfolding clean typed_values pieces ListInputs.add push_all trim to_lower is_space
clean_tests = (refl, refl, refl, refl)

one-IsDistinct : IsDistinct ("a.com" ∷ [])
one-IsDistinct a = ground arith
