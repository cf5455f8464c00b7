-- ===== src/StatsPage/Bytes.antt =====
-- `formatBytes` of ui/src/routes/stats/stats.svelte. Numbers are floating-point and a parameter, with the
-- tests and the operations that the function uses; the loop runs on fuel.
use gatesentry.Shared.{
  ℕ, zero, suc, ◌+◌, ◌≤◌, ◌<◌, String, Bool, false, Option, none, some, List, [], ◌∷◌, ◌≡◌, ◌&&◌,
  ◌||◌, ◌==◌, if◌then◌else◌, if_cases, ltb, get_elem?, ◌<>◌, arith, ℕ_eq,
}

pub record Numbers (Num : Type 0) : Type 0 where
  pub at_least : ℕ → Num → Bool  -- value >= n
  pub kibi : Num → Num  -- value / 1024
  pub to_fixed : Num → ℕ → String

abbrev pub units : List String
units = "B" ∷ "KiB" ∷ "MiB" ∷ "GiB" ∷ "TiB" ∷ []

-- `units[unit]`
abbrev pub unit_text : Option String → String
unit_text none = "undefined"
unit_text (some unit) = unit

module _ {Num : Type 0} (num : Numbers Num) where
  -- The condition of the loop
  abbrev pub goes_on : Num → ℕ → Bool
  goes_on value unit = num.at_least 1024 value && ltb unit 4

  unfoldable pub scale : ℕ → Num → ℕ → Num × ℕ
  scale zero value unit = (value, unit)
  scale (suc fuel) value unit =
      let next = scale fuel (num.kibi value) (unit + 1) in
      if goes_on value unit then next else (value, unit)

  abbrev pub digits : Num → ℕ → ℕ
  digits value unit =
      if unit == 0 || num.at_least 100 value then 0 else if num.at_least 10 value then 1 else 2

  -- Four rounds are enough.
  unfoldable pub format_bytes : Option Num → String
  format_bytes none = "—"
  format_bytes (some bytes) =
      let (value, unit) = scale 4 bytes 0 in
      num.to_fixed value (digits value unit) <> (" " <> unit_text (get_elem? units unit))

  scale-stops :
      (fuel : ℕ) (value : Num) (unit : ℕ)
      → unit ≤ 4
      → 4 ≤ unit + fuel
      → (goes_on (scale fuel value unit).0 (scale fuel value unit).1 ≡ false)
        × ((scale fuel value unit).1 ≤ 4)
  unfolding scale
  scale-stops zero value unit low enough = (ground (arith, low, enough), low)
  scale-stops (suc fuel) value unit low enough =
      if_cases (λ (r : Num × ℕ). (goes_on r.0 r.1 ≡ false) × (r.1 ≤ 4)) (goes_on value unit)
        (λ more. scale-stops fuel (num.kibi value) (unit + 1) (ground (arith, more)) (omega arith))
        (λ done. (done, low))

  -- The loop of formatBytes ends within four rounds, whatever the numbers do: after them its condition does
  -- not hold, and the unit that it stops at is in the table.
  pub scale-terminates :
      (bytes : Num)
      → (goes_on (scale 4 bytes 0).0 (scale 4 bytes 0).1 ≡ false) × ((scale 4 bytes 0).1 < 5)
  scale-terminates bytes =
      let (stopped, low) = scale-stops 4 bytes 0 (omega arith) (omega arith) in
      (stopped, omega (arith, low))
