-- ===== src/Shared/Maps.antt =====
-- `Map` and the objects that the UI uses as one: the list of the entries, in the order of insertion.
use Prim.Native.String.{String}
use mathlib.Core.Path.{◌≡◌, refl}
use mathlib.Core.List.{List, [], ◌∷◌}
use mathlib.Core.Option.{Option, none, some}
use native.Mathlib.Omega.{arith}
use gatesentry.Shared.Tests.{◌==◌, if◌then◌else◌, String_eq, beq_self, eq_of_beq}

-- `map.get(key)`
abbrev pub map_get {ℓ} : {V : Type ℓ} → List (String × V) → String → Option V
map_get [] k = none
map_get ((j, v) ∷ m) k = let rest = map_get m k in if j == k then some v else rest

-- `map.set(key, value)`
abbrev pub map_set {ℓ} : {V : Type ℓ} → List (String × V) → String → V → List (String × V)
map_set [] k w = (k, w) ∷ []
map_set ((j, v) ∷ m) k w = let rest = (j, v) ∷ map_set m k w in if j == k then (j, w) ∷ m else rest

pub map_get-map_set {ℓ} :
    {V : Type ℓ} (m : List (String × V)) (k : String) (v : V) (j : String)
    → map_get (map_set m k v) j ≡ (if k == j then some v else map_get m j)
map_get-map_set [] k v j = refl
map_get-map_set ((i, w) ∷ m) k v j =
    ground (arith, map_get-map_set m k v j, eq_of_beq i k, eq_of_beq i j, eq_of_beq k j, beq_self j)
