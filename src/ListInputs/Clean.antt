-- ===== src/ListInputs/Clean.antt =====
-- What the domain list makes of a pasted address: `clean`, and the split of the typed text.
use Prim.Native.Char.{Char, code}
use Prim.Native.String.{String, [], ◌∷◌}
use mathlib.Core.Bool.{true≢false}
use mathlib.Core.List.{List}
use gatesentry.Shared.{
  Bool, true, false, Option, none, some, ◌≡◌, refl, ◌&&◌, ◌||◌, leb, nat_eq, if◌then◌else◌, trim,
  to_lower, is_space, truthy, Bool-cases, inl, inr, if_cases,
}

-- `/[/?#]/`
abbrev pub is_separator : Char → Bool
is_separator c = nat_eq (code c) b'/' || nat_eq (code c) b'?' || nat_eq (code c) b'#'

-- What stands behind `://` at the start of a text.
abbrev scheme_rest : String → Option String
scheme_rest (a ∷ b ∷ c ∷ s) =
    if nat_eq (code a) b':' && nat_eq (code b) b'/' && nat_eq (code c) b'/' then some s else none
scheme_rest _ = none

-- What stands behind the first `://`, or the whole text.
abbrev or_later : Option String → Option String → Option String
or_later none later = later
or_later (some s) later = some s

find_scheme : String → Option String
find_scheme [] = none
find_scheme (c ∷ s) = or_later (scheme_rest (c ∷ s)) (find_scheme s)

abbrev or_whole : String → Option String → String
or_whole s none = s
or_whole s (some rest) = rest

-- `value.split(/[/?#]/)[0]`
pub before_separator : String → String
before_separator [] = []
before_separator (c ∷ s) = let rest = c ∷ before_separator s in if is_separator c then [] else rest

abbrev is_digit : Char → Bool
is_digit c = leb b'0' (code c) && leb (code c) b'9'

abbrev all_digits : String → Bool
all_digits [] = true
all_digits (c ∷ s) = is_digit c && all_digits s

-- `.replace(/:\d+$/, "")`
pub strip_port : String → String
strip_port [] = []
strip_port (c ∷ s) =
    let rest = c ∷ strip_port s in
    if nat_eq (code c) b':' && truthy s && all_digits s then [] else rest

-- `.replace(/\.$/, "")`
pub strip_dot : String → String
strip_dot [] = []
strip_dot (c ∷ []) = if nat_eq (code c) b'.' then [] else c ∷ []
strip_dot (c ∷ d ∷ s) = c ∷ strip_dot (d ∷ s)

unfoldable pub clean : String → String
unfolding find_scheme before_separator strip_port strip_dot
clean raw =
    let value = to_lower (trim raw) in
    strip_dot (strip_port (before_separator (or_whole value (find_scheme value))))

-- `/[\s,]/`
abbrev is_gap : Char → Bool
is_gap c = is_space c || nat_eq (code c) b','

abbrev starts_with_gap : String → Bool
starts_with_gap [] = false
starts_with_gap (c ∷ s) = is_gap c

abbrev onto_first : Char → List String → List String
onto_first c List.[] = List.[]
onto_first c (List.◌∷◌ w ws) = List.◌∷◌ (c ∷ w) ws

-- `draft.split(/[\s,]+/)`: only the last character of a run of gaps splits.
unfoldable pub pieces : String → List String
pieces [] = List.◌∷◌ [] List.[]
pieces (c ∷ s) =
    let rest = pieces s in
    if is_gap c then (if starts_with_gap s then rest else List.◌∷◌ [] rest) else onto_first c rest

-- Does a character of the text separate the host from what follows it?
abbrev pub has_separator : String → Bool
has_separator [] = false
has_separator (c ∷ s) = is_separator c || has_separator s

before_separator-none : (s : String) → has_separator (before_separator s) ≡ false
unfolding before_separator
before_separator-none [] = refl
before_separator-none (c ∷ s) = elim (Bool-cases (is_separator c)) [
  | inl here ↦ rw here
  | inr other ↦ rw other (rw other (before_separator-none s))
]

-- A character and the rest of a text, for the proofs below.
none-cons :
    (c : Char) (s t : String)
    → has_separator (c ∷ s) ≡ false
    → (has_separator s ≡ false → has_separator t ≡ false)
    → has_separator (c ∷ t) ≡ false
none-cons c s t h keep = elim (Bool-cases (is_separator c)) [
  | inl here ↦ absurd (true≢false (rw here at h))
  | inr other ↦ rw other (keep (rw other at h))
]

strip_port-none : (s : String) → has_separator s ≡ false → has_separator (strip_port s) ≡ false
unfolding strip_port
strip_port-none [] h = refl
strip_port-none (c ∷ s) h =
    if_cases (λ t. has_separator t ≡ false) (nat_eq (code c) b':' && truthy s && all_digits s)
      (λ port. refl) (λ host. none-cons c s (strip_port s) h (strip_port-none s))

strip_dot-none : (s : String) → has_separator s ≡ false → has_separator (strip_dot s) ≡ false
unfolding strip_dot
strip_dot-none [] h = refl
strip_dot-none (c ∷ []) h =
    if_cases (λ t. has_separator t ≡ false) (nat_eq (code c) b'.') (λ dot. refl) (λ other. h)
strip_dot-none (c ∷ d ∷ s) h = none-cons c (d ∷ s) (strip_dot (d ∷ s)) h (strip_dot-none (d ∷ s))

-- What an administrator pastes is cut down to a host: no slash, question mark or hash is left.
pub has_separator-clean : (raw : String) → has_separator (clean raw) ≡ false
unfolding clean
has_separator-clean raw =
    let value = to_lower (trim raw) in
    let host = before_separator (or_whole value (find_scheme value)) in
    strip_dot-none (strip_port host)
      (strip_port-none host (before_separator-none (or_whole value (find_scheme value))))
