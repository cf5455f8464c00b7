-- ===== src/Shared/Text.antt =====
-- The string methods that the UI calls. A text is a list of code points.
use Prim.Native.Nat.{ℕ, zero, suc, ◌/◌, ◌%◌, ◌≤◌, ◌<◌}
use Prim.Native.Char.{Char, code}
use Prim.Native.String
use Prim.Native.String.{String, [], ◌∷◌}
use mathlib.Core.HLevel.{prop→set}
use text.Mathlib.TextEquality.{IsScalar-prop}
use mathlib.Core.Path.{◌≡◌, refl, ap, ◌∙◌}
use mathlib.Core.Logic.{inl, inr}
use mathlib.Core.Bool.{Bool, true, false, ◌&&◌, ◌||◌}
use mathlib.Core.Option.{Option, none, some}
use mathlib.Core.List.{List}
use native.Mathlib.Omega.{arith}
use gatesentry.Shared.Tests.{leb, ltb, nat_eq, if◌then◌else◌, Bool-cases}

infixr 65 ◌<>◌
-- `a + b` on strings
abbrev pub ◌<>◌ : String → String → String
a <> b = String.◌++◌ a b

-- The truthiness of a string.
abbrev pub truthy : String → Bool
truthy [] = false
truthy (c ∷ s) = true

-- `value || fallback` for a string that may be missing.
abbrev pub or_else : Option String → String → String
or_else none d = d
or_else (some []) d = d
or_else (some (c ∷ s)) d = c ∷ s

-- The white space that `String.prototype.trim` removes.
unfoldable pub is_space : Char → Bool
is_space c =
    (leb 9 (code c) && leb (code c) 13)
    || nat_eq (code c) 32
    || nat_eq (code c) 160
    || nat_eq (code c) 5760
    || (leb 8192 (code c) && leb (code c) 8202)
    || nat_eq (code c) 8232
    || nat_eq (code c) 8233
    || nat_eq (code c) 8239
    || nat_eq (code c) 8287
    || nat_eq (code c) 12288
    || nat_eq (code c) 65279

-- `trimStart`
pub trim_start : String → String
trim_start [] = []
trim_start (c ∷ s) = let rest = trim_start s in if is_space c then rest else c ∷ s

-- One character in front of a text that is already trimmed at its end.
abbrev pub cons_trim_end : Char → String → String
cons_trim_end c [] = if is_space c then [] else (c ∷ [])
cons_trim_end c (d ∷ s) = c ∷ d ∷ s

-- `trimEnd`
pub trim_end : String → String
trim_end [] = []
trim_end (c ∷ s) = cons_trim_end c (trim_end s)

-- `trim`
unfoldable pub trim : String → String
unfolding trim_start trim_end is_space
trim s = trim_end (trim_start s)

-- What stands in a text behind a prefix, if the text starts with it.
abbrev pub after_prefix : String → String → Option String
after_prefix [] s = some s
after_prefix (c ∷ p) [] = none
after_prefix (c ∷ p) (d ∷ s) =
    let rest = after_prefix p s in if nat_eq (code c) (code d) then rest else none

-- Does the text have no white space?
abbrev pub has_no_space : String → Bool
has_no_space [] = true
has_no_space (c ∷ s) = let rest = has_no_space s in if is_space c then false else rest

-- `array.join(separator)`
unfoldable pub join : String → List String → String
join sep List.[] = ""
join sep (List.◌∷◌ s List.[]) = s
join sep (List.◌∷◌ s (List.◌∷◌ t rest)) = s <> sep <> join sep (List.◌∷◌ t rest)

-- The text whose characters are those of `s`, each taken from `xs` to the same place of `ys`.
translate : String → String → Char → Char
translate [] ys c = c
translate (x ∷ xs) [] c = c
translate (x ∷ xs) (y ∷ ys) c =
    let rest = translate xs ys c in if nat_eq (code c) (code x) then y else rest

to_lower_char : Char → Char
to_lower_char = translate "ABCDEFGHIJKLMNOPQRSTUVWXYZ" "abcdefghijklmnopqrstuvwxyz"

-- `toLowerCase`, for the ASCII letters
unfoldable pub to_lower : String → String
unfolding translate to_lower_char
to_lower [] = []
to_lower (c ∷ s) = to_lower_char c ∷ to_lower s

-- The character at a position, as a text.
char_text : String → ℕ → String
char_text [] n = []
char_text (c ∷ s) zero = c ∷ []
char_text (c ∷ s) (suc n) = char_text s n

abbrev digit : ℕ → String
digit = char_text "0123456789"

-- A number as `String(n)` writes it, on fuel.
decimal_fuel : ℕ → ℕ → String
decimal_fuel zero n = ""
decimal_fuel (suc f) n =
    let more = decimal_fuel f (n / 10) <> digit (n % 10) in if ltb n 10 then digit n else more

unfoldable pub decimal : ℕ → String
unfolding decimal_fuel char_text
decimal n = decimal_fuel (suc n) n

-- Any fuel above the number gives the same numeral.
decimal_fuel_enough : (f g n : ℕ) → n < f → n < g → decimal_fuel f n ≡ decimal_fuel g n
unfolding decimal_fuel
decimal_fuel_enough zero g n h k = elim h [ ]
decimal_fuel_enough (suc f) zero n h k = elim k [ ]
decimal_fuel_enough (suc f) (suc g) n h k = ground (arith, decimal_fuel_enough f g (n / 10))

-- The numeral of a number of several digits is that of its tenth, and the last digit.
pub decimal_step : (n : ℕ) → 10 ≤ n → decimal n ≡ decimal (n / 10) <> decimal (n % 10)
unfolding decimal
decimal_step n h = ground (arith, decimal_fuel_enough n (suc (n / 10)) (n / 10))

trim_end-cons_trim_end :
    (c : Char) (s : String) → trim_end s ≡ s → trim_end (cons_trim_end c s) ≡ cons_trim_end c s
unfolding trim_end
trim_end-cons_trim_end c [] h = elim (Bool-cases (is_space c)) [
  | inl space ↦ rw space
  | inr other ↦ rw other (rw other)
]
trim_end-cons_trim_end c (d ∷ s) h = rw h

trim_end_idempotent : (s : String) → trim_end (trim_end s) ≡ trim_end s
unfolding trim_end
trim_end_idempotent [] = refl
trim_end_idempotent (c ∷ s) = trim_end-cons_trim_end c (trim_end s) (trim_end_idempotent s)

-- The text is empty, or begins with a character that is no space.
abbrev StartsClean : String → Type 0
StartsClean [] = Unit
StartsClean (c ∷ s) = is_space c ≡ false

trim_start-StartsClean : (s : String) → StartsClean (trim_start s)
unfolding trim_start
trim_start-StartsClean [] = tt
trim_start-StartsClean (c ∷ s) = elim (Bool-cases (is_space c)) [
  | inl space ↦ rw space (trim_start-StartsClean s)
  | inr other ↦ rw other other
]

trim_start_of_StartsClean : (s : String) → StartsClean s → trim_start s ≡ s
unfolding trim_start
trim_start_of_StartsClean [] h = refl
trim_start_of_StartsClean (c ∷ s) h = rw h

cons_trim_end-StartsClean :
    (c : Char) (s : String) → is_space c ≡ false → StartsClean (cons_trim_end c s)
cons_trim_end-StartsClean c [] h = rw h h
cons_trim_end-StartsClean c (d ∷ s) h = h

trim_end-StartsClean : (s : String) → StartsClean s → StartsClean (trim_end s)
unfolding trim_end
trim_end-StartsClean [] h = tt
trim_end-StartsClean (c ∷ s) h = cons_trim_end-StartsClean c (trim_end s) h

-- Trimming twice is trimming once.
pub trim_idempotent : (s : String) → trim (trim s) ≡ trim s
unfolding trim
trim_idempotent s =
    ap trim_end (
      trim_start_of_StartsClean (trim_end (trim_start s))
        (trim_end-StartsClean (trim_start s) (trim_start-StartsClean s)))
    ∙ trim_end_idempotent (trim_start s)

text_runs :
    (trim "  a b\n" ≡ "a b")
    × (to_lower "TikTok.COM" ≡ "tiktok.com")
    × (decimal 1024 ≡ "1024")
    × (join ", " (List.◌∷◌ "Sun" (List.◌∷◌ "Mon" List.[])) ≡ "Sun, Mon")
unfolding trim to_lower decimal join
text_runs = (refl, refl, refl, refl)

pub String-set : IsSet String
String-set = hlevel (λ (n : ℕ). prop→set (IsScalar-prop n))
