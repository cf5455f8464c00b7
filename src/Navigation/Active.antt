-- ===== src/Navigation/Active.antt =====
-- Which entries of the side menu are shown as active.
use Prim.Native.Char.{code}
use Prim.Native.String as Text
use text.Mathlib.TextLemmas.{cons-append}
use text.Mathlib.TextEquality.{Char-path}
use mathlib.Core.Bool.{false≢true}
use gatesentry.Shared.{
  subst, not, ap₂, map, includes, ℕ, ◌+◌, ◌≤◌, String, Bool, true, false, List, [], ◌∷◌, ◌++◌, ◌≡◌,
  ◌∙◌, refl, sym, ap, ◌&&◌, ◌||◌, ◌==◌, if◌then◌else◌, ◌<>◌, starts_with, Bool-cases, inl, inr,
  arith, String_eq, eq_of_beq, if_cases, count, count-append, nat_eq, beq_self,
}
use gatesentry.Navigation.{
  MenuLink, MenuItem, link, menu, menu_items, is_route_active, any_active, is_menu_active,
}

-- A text up to its next slash.
abbrev before_slash : String → String
before_slash Text.[] = ""
before_slash (Text.◌∷◌ c s) =
    let rest = Text.◌∷◌ c (before_slash s) in if nat_eq (code c) 47 then "" else rest

-- The first segment of a path, with its slash.
abbrev segment : String → String
segment Text.[] = ""
segment (Text.◌∷◌ c s) = Text.◌∷◌ c (before_slash s)

abbrev has_no_slash : String → Bool
has_no_slash Text.[] = true
has_no_slash (Text.◌∷◌ c s) = not (nat_eq (code c) 47) && has_no_slash s

-- A slash and a segment without one.
abbrev is_segment : String → Bool
is_segment Text.[] = false
is_segment (Text.◌∷◌ c s) = nat_eq (code c) 47 && has_no_slash s

before_slash_self : (s : String) → has_no_slash s ≡ true → before_slash s ≡ s
before_slash_self Text.[] h = refl
before_slash_self (Text.◌∷◌ c s) h = ground (arith, before_slash_self s)

before_slash_of_prefix :
    (r p : String) → has_no_slash r ≡ true → starts_with (r <> "/") p ≡ true → before_slash p ≡ r
before_slash_of_prefix Text.[] Text.[] h k = cc
before_slash_of_prefix Text.[] (Text.◌∷◌ d p) h k = ground arith
before_slash_of_prefix (Text.◌∷◌ c r) Text.[] h k =
    absurd (false≢true (subst (λ x. starts_with x "" ≡ true) (cons-append c r "/") k))
before_slash_of_prefix (Text.◌∷◌ c r) (Text.◌∷◌ d p) h k =
    let inside : (nat_eq (code c) (code d) && starts_with (r <> "/") p) ≡ true =
      subst (λ x. starts_with x (Text.◌∷◌ d p) ≡ true) (cons-append c r "/") k in
    let same_char : c ≡ d = Char-path c d (ground arith) in
    subst (λ x. before_slash (Text.◌∷◌ x p) ≡ Text.◌∷◌ c r) same_char
      (ground (arith, before_slash_of_prefix r p (ground arith) (ground arith)))

segment_of_prefix :
    (h p : String) → is_segment h ≡ true → starts_with (h <> "/") p ≡ true → segment p ≡ h
segment_of_prefix Text.[] p s k = cc
segment_of_prefix (Text.◌∷◌ c r) Text.[] s k =
    absurd (false≢true (subst (λ x. starts_with x "" ≡ true) (cons-append c r "/") k))
segment_of_prefix (Text.◌∷◌ c r) (Text.◌∷◌ d p) s k =
    let inside : (nat_eq (code c) (code d) && starts_with (r <> "/") p) ≡ true =
      subst (λ x. starts_with x (Text.◌∷◌ d p) ≡ true) (cons-append c r "/") k in
    ap₂ (λ x y. Text.◌∷◌ x y) (sym (Char-path c d (ground arith)))
      (before_slash_of_prefix r p (ground arith) (ground arith))

segment_self : (h : String) → is_segment h ≡ true → segment h ≡ h
segment_self Text.[] s = refl
segment_self (Text.◌∷◌ c r) s = ap (λ x. Text.◌∷◌ c x) (before_slash_self r (ground arith))

-- An active route is the first segment of the path.
segment_of_active :
    (h p : String) → is_segment h ≡ true → is_route_active h p ≡ true → segment p ≡ h
unfolding is_route_active
segment_of_active h p s k = elim (Bool-cases (h == "/")) [
  | inl home ↦
      let there : (p == "/") ≡ true =
        sym (ap (λ b. if b then p == "/" else p == h || starts_with (h <> "/") p) home) ∙ k in
      ap segment (eq_of_beq p "/" there) ∙ sym (eq_of_beq h "/" home)
  | inr other ↦
      let rest : (p == h || starts_with (h <> "/") p) ≡ true =
        sym (ap (λ b. if b then p == "/" else p == h || starts_with (h <> "/") p) other) ∙ k in
      elim (Bool-cases (p == h)) [
        | inl same ↦ ap segment (eq_of_beq p h same) ∙ segment_self h s
        | inr longer ↦
            segment_of_prefix h p s (sym (ap (λ b. b || starts_with (h <> "/") p) longer) ∙ rest)
      ]
]

-- The routes of an entry.
abbrev hrefs : MenuItem → List String
hrefs (link item) = item.href ∷ []
hrefs (menu text children) = map (λ child. child.href) children

abbrev all_hrefs : List MenuItem → List String
all_hrefs [] = []
all_hrefs (item ∷ items) = hrefs item ++ all_hrefs items

abbrev all_segments : List String → Bool
all_segments [] = true
all_segments (h ∷ hs) = is_segment h && all_segments hs

abbrev is_distinct : List String → Bool
is_distinct [] = true
is_distinct (h ∷ hs) = not (includes hs h) && is_distinct hs

-- How many entries of a menu are active.
abbrev pub active_count : List MenuItem → String → ℕ
active_count [] pathname = 0
active_count (item ∷ items) pathname =
    (if is_menu_active item pathname then 1 else 0) + active_count items pathname

count_of_not_includes : (xs : List String) (a : String) → includes xs a ≡ false → count a xs ≡ 0
count_of_not_includes [] a h = refl
count_of_not_includes (x ∷ xs) a h = ground (arith, count_of_not_includes xs a)

count_of_is_distinct : (xs : List String) (a : String) → is_distinct xs ≡ true → count a xs ≤ 1
count_of_is_distinct [] a h = omega arith
count_of_is_distinct (x ∷ xs) a h =
    ground (arith, count_of_is_distinct xs a, count_of_not_includes xs a, eq_of_beq x a)

any_active-count :
    (children : List MenuLink) (p : String)
    → all_segments (map (λ child. child.href) children) ≡ true
    → any_active children p ≡ true
    → 1 ≤ count (segment p) (map (λ child. child.href) children)
any_active-count [] p h k = cc
any_active-count (child ∷ rest) p h k = elim (Bool-cases (is_route_active child.href p)) [
  | inl here ↦
      let eq = segment_of_active child.href p (ground arith) here in
      ground (arith, eq, beq_self child.href)
  | inr later ↦ ground (arith, any_active-count rest p (ground arith) (ground arith))
]

active-count :
    (item : MenuItem) (p : String)
    → all_segments (hrefs item) ≡ true
    → (if is_menu_active item p then 1 else 0) ≤ count (segment p) (hrefs item)
unfolding is_menu_active
active-count (link item) p h =
    if_cases (λ n. n ≤ count (segment p) (item.href ∷ [])) (is_route_active item.href p)
      (λ here.
        ground (arith, segment_of_active item.href p (ground arith) here, beq_self item.href))
      (λ away. omega arith)
active-count (menu text children) p h =
    if_cases (λ n. n ≤ count (segment p) (map (λ child. child.href) children))
      (any_active children p) (λ here. any_active-count children p h here) (λ away. omega arith)

abbrev all_items : List MenuItem → Bool
all_items [] = true
all_items (item ∷ items) = all_segments (hrefs item) && all_items items

active_count-le-count :
    (items : List MenuItem) (p : String)
    → all_items items ≡ true
    → active_count items p ≤ count (segment p) (all_hrefs items)
active_count-le-count [] p h = omega arith
active_count-le-count (item ∷ items) p h =
    let first = active-count item p (ground arith) in
    let rest = active_count-le-count items p (ground arith) in
    omega (arith, first, rest, count-append (segment p) (hrefs item) (all_hrefs items))

-- On any path, at most one entry of the side menu is shown as active.
pub active_count-le-one : (pathname : String) → active_count menu_items pathname ≤ 1
active_count-le-one pathname = omega (
  arith,
  active_count-le-count menu_items pathname refl,
  count_of_is_distinct (all_hrefs menu_items) (segment pathname) refl,
)
