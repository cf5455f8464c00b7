-- ===== src/DeviceNames/Order.antt =====
-- The names of addresses do not depend on the order of the devices.
use mathlib.Core.List.{Perm, Permᴰ}
use mathlib.Core.Logic.{∥∥₁_elim}
use mathlib.Core.Option
use gatesentry.Shared.{
  map_get, suc, String, some, List, [], ◌∷◌, ◌≡◌, ◌∙◌, refl, ap, sym, subst, arith, inl, inr,
  Bool-cases, includes, length, String_eq, String-set,
}
use gatesentry.DeviceNames.{DeviceNameSource, addresses, build_device_name_map}
use gatesentry.DeviceNames.Lookup.{claimants, sole_name, map_get-build_device_name_map}

sole_name-cons :
    (d : DeviceNameSource) (xs ys : List DeviceNameSource)
    → length xs ≡ length ys
    → sole_name (d ∷ xs) ≡ sole_name (d ∷ ys)
sole_name-cons d [] [] h = refl
sole_name-cons d [] (y ∷ ys) h = absurd (omega arith)
sole_name-cons d (x ∷ xs) [] h = absurd (omega arith)
sole_name-cons d (x ∷ xs) (y ∷ ys) h = refl

-- Reordered lists have as many claimants, and the same name for a sole one.
IsSameSole : String → List DeviceNameSource → List DeviceNameSource → Type 0
IsSameSole ip xs ys =
    (sole_name (claimants ip xs) ≡ sole_name (claimants ip ys))
    × (length (claimants ip xs) ≡ length (claimants ip ys))

cons-IsSameSole :
    (ip : String) (d : DeviceNameSource) (xs ys : List DeviceNameSource)
    → IsSameSole ip xs ys
    → IsSameSole ip (d ∷ xs) (d ∷ ys)
unfolding IsSameSole
cons-IsSameSole ip d xs ys (same, long) = elim (Bool-cases (includes (addresses d) ip)) [
  | inl here ↦ rw here (sole_name-cons d (claimants ip xs) (claimants ip ys) long, ap suc long)
  | inr other ↦ rw other (same, long)
]

swap-IsSameSole :
    (ip : String) (a b : DeviceNameSource) (l : List DeviceNameSource)
    → IsSameSole ip (a ∷ b ∷ l) (b ∷ a ∷ l)
unfolding IsSameSole
swap-IsSameSole ip a b l = ground arith

sole_name-Permᴰ : (ip : String) {xs ys : List DeviceNameSource} → Permᴰ xs ys → IsSameSole ip xs ys
unfolding IsSameSole
sole_name-Permᴰ ip Permᴰ.nil = (refl, refl)
sole_name-Permᴰ ip (Permᴰ.cons {a} {b} {l₁} {l₂} e d) =
    subst (λ c. IsSameSole ip (a ∷ l₁) (c ∷ l₂)) e
      (cons-IsSameSole ip a l₁ l₂ (sole_name-Permᴰ ip d))
sole_name-Permᴰ ip (Permᴰ.swap {a} {b} {l} e f) = rw (← e, ← f) (swap-IsSameSole ip a b l)
sole_name-Permᴰ ip (Permᴰ.trans d e) =
    let (same, long) = sole_name-Permᴰ ip d in
    let (same', long') = sole_name-Permᴰ ip e in (same ∙ same', long ∙ long')

-- The name of an address does not depend on the order in which the devices are listed.
pub map_get-build_device_name_map-perm :
    (xs ys : List DeviceNameSource) (ip : String)
    → Perm xs ys
    → map_get (build_device_name_map (some xs)) ip ≡ map_get (build_device_name_map (some ys)) ip
unfolding IsSameSole
map_get-build_device_name_map-perm xs ys ip p =
    map_get-build_device_name_map xs ip
    ∙ (∥∥₁_elim p (Option.is_set String-set _ _) (λ d. (sole_name-Permᴰ ip d).0)
        ∙ sym (map_get-build_device_name_map ys ip))
