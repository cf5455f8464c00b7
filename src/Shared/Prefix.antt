-- ===== src/Shared/Prefix.antt =====
-- `startsWith` and `slice` of texts.
use Prim.Native.Char.{code}
use Prim.Native.String.{String, [], ◌∷◌}
use mathlib.Core.Path.{◌≡◌, refl, ap₂, ◌∙◌}
use mathlib.Core.Bool.{Bool, true, false, ◌&&◌}
use native.Mathlib.Omega.{arith}
use text.Mathlib.TextEquality.{Char-path}
use text.Mathlib.TextLemmas.{nil-append, cons-append}
use gatesentry.Shared.Tests.{nat_eq}
use gatesentry.Shared.Text.{◌<>◌}

-- `s.startsWith(p)`
abbrev pub starts_with : String → String → Bool
starts_with [] s = true
starts_with (c ∷ p) [] = false
starts_with (c ∷ p) (d ∷ s) = nat_eq (code c) (code d) && starts_with p s

-- `s.slice(p.length)`
abbrev pub slice_after : String → String → String
slice_after [] s = s
slice_after (c ∷ p) [] = []
slice_after (c ∷ p) (d ∷ s) = slice_after p s

pub starts_with-append : (p s : String) → starts_with p (p <> s) ≡ true
starts_with-append [] s = refl
starts_with-append (c ∷ p) s = rw (cons-append c p s) (ground (arith, starts_with-append p s))

pub slice_after-append : (p s : String) → slice_after p (p <> s) ≡ s
slice_after-append [] s = nil-append s
slice_after-append (c ∷ p) s = rw (cons-append c p s) (slice_after-append p s)

-- A text that starts with `p` is `p` and its slice.
pub append_slice_after : (p s : String) → starts_with p s ≡ true → p <> slice_after p s ≡ s
append_slice_after [] s h = nil-append s
append_slice_after (c ∷ p) [] h = cc
append_slice_after (c ∷ p) (d ∷ s) h =
    cons-append c p (slice_after p s)
    ∙ ap₂ (λ x y. x ∷ y) (Char-path c d (ground arith)) (append_slice_after p s (ground arith))

pub starts_with-append_append :
    (p q s : String) → starts_with q s ≡ true → starts_with (p <> q) (p <> s) ≡ true
starts_with-append_append [] q s h = rw (nil-append q) (rw (nil-append s) h)
starts_with-append_append (c ∷ p) q s h =
    rw (cons-append c p q)
      (rw (cons-append c p s) (ground (arith, starts_with-append_append p q s h)))
