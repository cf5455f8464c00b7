-- ===== src/DeviceNames/Lookup.antt =====
-- An address has the name of the one device that claims it.
use gatesentry.Shared.{
  map_get, map_set, map_get-map_set, ℕ, ◌+◌, String, Bool, true, false, Option, none, some, List,
  [], ◌∷◌, ◌++◌, ◌≡◌, ◌∙◌, refl, ap, arith, inl, inr, Bool-cases, ◌&&◌, ◌==◌, if◌then◌else◌,
  includes, filter, length, eq_of_beq, ℕ_eq, String_eq,
}
use gatesentry.DeviceNames.{
  DeviceNameSource, given, distinct, addresses, number_or_zero, claim_all, claims_from, is_sole,
  name_all, own_name, name_device, names_from, build_device_name_map,
}

-- How often a list of distinct addresses has an address.
abbrev one_if : Bool → ℕ
one_if b = if b then 1 else 0

IsOnce : List String → Type 0
IsOnce [] = Unit
IsOnce (x ∷ xs) = (includes xs x ≡ false) × IsOnce xs

distinct-IsOnce : (xs : List String) → IsOnce (distinct xs)
unfolding IsOnce
distinct-IsOnce [] = tt
distinct-IsOnce (x ∷ xs) = elim (Bool-cases (includes (distinct xs) x)) [
  | inl old ↦ rw old (distinct-IsOnce xs)
  | inr new ↦ rw new (new, distinct-IsOnce xs)
]

-- How many devices of the list claim an address, after the claims that were there.
claim_all_lem :
    (ips : List String) (m : List (String × ℕ)) (ip : String)
    → IsOnce ips
    → number_or_zero (map_get (claim_all ips m) ip)
      ≡ number_or_zero (map_get m ip) + one_if (includes ips ip)
unfolding claim_all IsOnce
claim_all_lem [] m ip h = omega arith
claim_all_lem (x ∷ ips) m ip (new, h) = ground (
  arith,
  claim_all_lem ips (map_set m x (number_or_zero (map_get m x) + 1)) ip h,
  map_get-map_set m x (number_or_zero (map_get m x) + 1) ip,
  eq_of_beq x ip,
)

-- The devices that claim an address.
abbrev pub claimants : String → List DeviceNameSource → List DeviceNameSource
claimants ip = filter (λ d. includes (addresses d) ip)

includes-IsOnce : (d : DeviceNameSource) → IsOnce (addresses d)
unfolding addresses
includes-IsOnce d = distinct-IsOnce (given d.ipv4 ++ given d.ipv6)

claims_from_lem :
    (ds : List DeviceNameSource) (m : List (String × ℕ)) (ip : String)
    → number_or_zero (map_get (claims_from ds m) ip)
      ≡ number_or_zero (map_get m ip) + length (claimants ip ds)
unfolding claims_from
claims_from_lem [] m ip = omega arith
claims_from_lem (d ∷ ds) m ip = ground (
  arith,
  claims_from_lem ds (claim_all (addresses d) m) ip,
  claim_all_lem (addresses d) m ip (includes-IsOnce d),
)

is_sole_lem : (o : Option ℕ) → is_sole o ≡ (number_or_zero o == 1)
is_sole_lem none = refl
is_sole_lem (some n) = refl

-- The test of the second loop finds the addresses that one device claims.
is_sole-claims_from :
    (ds : List DeviceNameSource) (ip : String)
    → is_sole (map_get (claims_from ds []) ip) ≡ (length (claimants ip ds) == 1)
is_sole-claims_from ds ip =
    let counted : number_or_zero (map_get (claims_from ds []) ip) ≡ length (claimants ip ds) =
      claims_from_lem ds [] ip ∙ omega arith in
    is_sole_lem (map_get (claims_from ds []) ip) ∙ ap (λ n. n == 1) counted

module _ (claims : List (String × ℕ)) where
  name_all_lem :
      (name : String) (ips : List String) (m : List (String × String)) (ip : String)
      → map_get (name_all claims name ips m) ip
        ≡ (if includes ips ip && is_sole (map_get claims ip) then some name else map_get m ip)
  unfolding name_all
  name_all_lem name [] m ip = refl
  name_all_lem name (x ∷ ips) m ip = ground (
    arith,
    name_all_lem name ips (if is_sole (map_get claims x) then map_set m x name else m) ip,
    map_get-map_set m x name ip,
    eq_of_beq x ip,
  )

  -- A device that does not claim the address does not name it.
  name_device_other :
      (d : DeviceNameSource) (o : Option String) (m : List (String × String)) (ip : String)
      → (includes (addresses d) ip && is_sole (map_get claims ip)) ≡ false
      → map_get (name_device claims d o m) ip ≡ map_get m ip
  name_device_other d none m ip h = refl
  name_device_other d (some name) m ip h = name_all_lem name (addresses d) m ip ∙ rw h

  names_from_other :
      (ds : List DeviceNameSource) (m : List (String × String)) (ip : String)
      → is_sole (map_get claims ip) ≡ false
      → map_get (names_from claims ds m) ip ≡ map_get m ip
  unfolding names_from
  names_from_other [] m ip h = refl
  names_from_other (d ∷ ds) m ip h =
      names_from_other ds (name_device claims d (own_name d) m) ip h
      ∙ name_device_other d (own_name d) m ip (ground arith)

  names_from_none :
      (ds : List DeviceNameSource) (m : List (String × String)) (ip : String)
      → claimants ip ds ≡ []
      → map_get (names_from claims ds m) ip ≡ map_get m ip
  unfolding names_from
  names_from_none [] m ip h = refl
  names_from_none (d ∷ ds) m ip h = elim (Bool-cases (includes (addresses d) ip)) [
    | inl here ↦ absurd (no_cons (rw here at h))
    | inr other ↦
        names_from_none ds (name_device claims d (own_name d) m) ip (rw other at h)
        ∙ name_device_other d (own_name d) m ip (rw other)
  ]
    where
      no_cons : ¬ (d ∷ claimants ip ds ≡ [])
      no_cons e = cc

  name_device_self :
      (d : DeviceNameSource) (o : Option String) (m : List (String × String)) (ip : String)
      → (includes (addresses d) ip && is_sole (map_get claims ip)) ≡ true
      → map_get m ip ≡ none
      → map_get (name_device claims d o m) ip ≡ o
  name_device_self d none m ip h fresh = fresh
  name_device_self d (some name) m ip h fresh = name_all_lem name (addresses d) m ip ∙ rw h

  names_from_sole :
      (ds : List DeviceNameSource) (m : List (String × String)) (ip : String) (d : DeviceNameSource)
      → claimants ip ds ≡ d ∷ []
      → is_sole (map_get claims ip) ≡ true
      → map_get m ip ≡ none
      → map_get (names_from claims ds m) ip ≡ own_name d
  unfolding names_from
  names_from_sole [] m ip d h sole fresh = cc
  names_from_sole (e ∷ ds) m ip d h sole fresh = elim (Bool-cases (includes (addresses e) ip)) [
    | inl here ↦
        let both : e ∷ claimants ip ds ≡ d ∷ [] = rw here at h in
        names_from_none ds (name_device claims e (own_name e) m) ip (cc)
        ∙ (name_device_self e (own_name e) m ip (rw (here, sole)) fresh
            ∙ ap own_name {x = e} {y = d} cc)
    | inr other ↦
        names_from_sole ds (name_device claims e (own_name e) m) ip d (rw other at h) sole
          (name_device_other e (own_name e) m ip (rw other) ∙ fresh)
  ]

-- The name of the only device of a list, if it has one.
abbrev pub sole_name : List DeviceNameSource → Option String
sole_name (d ∷ []) = own_name d
sole_name _ = none

lookup_of_claimants :
    (ds cs : List DeviceNameSource) (ip : String)
    → claimants ip ds ≡ cs
    → map_get (names_from (claims_from ds []) ds []) ip ≡ sole_name cs
lookup_of_claimants ds [] ip e = names_from_none _ ds [] ip e
lookup_of_claimants ds (d ∷ []) ip e =
    names_from_sole _ ds [] ip d e (is_sole-claims_from ds ip ∙ rw e) refl
lookup_of_claimants ds (d ∷ c ∷ cs) ip e =
    names_from_other _ ds [] ip (is_sole-claims_from ds ip ∙ several)
  where
    several : (length (claimants ip ds) == 1) ≡ false
    several = rw e (ground arith)

-- An address that one device claims has the name of that device, if it has one; an address that no device or
-- several devices claim, named or not, has none.
pub map_get-build_device_name_map :
    (ds : List DeviceNameSource) (ip : String)
    → map_get (build_device_name_map (some ds)) ip ≡ sole_name (claimants ip ds)
unfolding build_device_name_map
map_get-build_device_name_map ds ip = lookup_of_claimants ds (claimants ip ds) ip refl
