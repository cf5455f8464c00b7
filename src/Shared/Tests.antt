-- ===== src/Shared/Tests.antt =====
-- Boolean tests, the conditional, and equality as an interface: `===` on the values of the UI.
use Prim.Native.Nat.{ℕ, compare, Ordering}
use Prim.Native.String.{String}
use mathlib.Core.Path.{◌≡◌, refl}
use mathlib.Core.Logic.{◌↔◌, ◌⊎◌, inl, inr}
use mathlib.Core.Bool.{Bool, true, false}
use mathlib.Core.Option.{Option, none, some}
use native.Mathlib.Omega.{arith}
use text.Mathlib.Text.{◌==◌ as str_eq}
use text.Mathlib.TextEquality.{eq_iff}

abbrev pub ltb : ℕ → ℕ → Bool
ltb a b = elim (compare a b) [ Ordering.lt ↦ true | _ ↦ false ]

abbrev pub leb : ℕ → ℕ → Bool
leb a b = elim (compare a b) [ Ordering.gt ↦ false | _ ↦ true ]

abbrev pub nat_eq : ℕ → ℕ → Bool
nat_eq a b = elim (compare a b) [ Ordering.eq ↦ true | _ ↦ false ]

infix 1 if◌then◌else◌
abbrev pub if◌then◌else◌ {ℓ} : {A : Type ℓ} → Bool → A → A → A
if true then x else y = x
if false then x else y = y

pub nat_eq_iff : (a b : ℕ) → (nat_eq a b ≡ true) ↔ (a ≡ b)
nat_eq_iff a b = ground arith

-- `===` on one type of values: a test that finds a value in itself, and in nothing else.
pub record StrictEq {ℓ} (A : Type ℓ) : Type ℓ where
  pub same : A → A → Bool
  pub same_self : (a : A) → same a a ≡ true
  pub eq_of_same : (a b : A) → same a b ≡ true → a ≡ b

infix 50 ◌==◌
abbrev pub ◌==◌ {ℓ} : {A : Type ℓ} ⦃strict : StrictEq A⦄ → A → A → Bool
◌==◌ ⦃strict⦄ x y = strict.same x y

instance abbrev pub ℕ_eq : StrictEq ℕ
ℕ_eq = record {
  same = nat_eq;
  same_self = λ a. (nat_eq_iff a a).1 refl;
  eq_of_same = λ a b h. (nat_eq_iff a b).0 h;
}

instance abbrev pub String_eq : StrictEq String
String_eq = record {
  same = str_eq;
  same_self = λ s. (eq_iff s s).1 refl;
  eq_of_same = λ s t h. (eq_iff s t).0 h;
}

module _ {ℓ} {A : Type ℓ} ⦃strict : StrictEq A⦄ where
  pub beq_self : (a : A) → (a == a) ≡ true
  beq_self = strict.same_self

  pub eq_of_beq : (a b : A) → (a == b) ≡ true → a ≡ b
  eq_of_beq = strict.eq_of_same

pub Bool-cases : (b : Bool) → (b ≡ true) ⊎ (b ≡ false)
Bool-cases true = inl refl
Bool-cases false = inr refl

pub Option-cases {ℓ} : {A : Type ℓ} (o : Option A) → (o ≡ none) ⊎ ((a : A) × (o ≡ some a))
Option-cases none = inl refl
Option-cases (some a) = inr (a, refl)

abbrev pub option_map {ℓ κ} : {A : Type ℓ} {B : Type κ} → (A → B) → Option A → Option B
option_map f none = none
option_map f (some a) = some (f a)

pub option_map-eq-some {ℓ κ} :
    {A : Type ℓ} {B : Type κ} (f : A → B) (o : Option A) {b : B}
    → option_map f o ≡ some b
    → (a : A) × (o ≡ some a) × (f a ≡ b)
option_map-eq-some f none h = cc
option_map-eq-some f (some a) h = (a, refl, cc)

-- What holds of both branches, each where it is taken, holds of the conditional.
pub if_cases {ℓ κ} :
    {A : Type ℓ} (P : A → Type κ) (b : Bool) {x y : A}
    → (b ≡ true → P x)
    → (b ≡ false → P y)
    → P (if b then x else y)
if_cases P true h k = h refl
if_cases P false h k = k refl
