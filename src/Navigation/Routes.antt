-- ===== src/Navigation/Routes.antt =====
-- The route that the application reads back from the address of a link.
use gatesentry.Shared.{
  String, Bool, true, false, Option, some, ◌≡◌, ◌∙◌, refl, sym, ap, ◌&&◌, ◌||◌, ◌==◌, if◌then◌else◌,
  or_else, ◌<>◌, truthy, starts_with, slice_after, slice_after-append, starts_with-append_append,
  String_eq, if_cases,
}
use Prim.Native.String as Text
use mathlib.Core.Bool.{false≢true}
use text.Mathlib.TextLemmas.{nil-append}
use gatesentry.Navigation.{get_base_path, route_href, current_route}

or_true : (a b : Bool) → b ≡ true → (a || b) ≡ true
or_true true b h = refl
or_true false b h = h

or_else-slash : (href : String) → starts_with "/" href ≡ true → or_else (some href) "/" ≡ href
or_else-slash Text.[] h = cc
or_else-slash (Text.◌∷◌ c s) h = refl

-- Under every base path that the server may write, the application reads the route of a link, whose
-- `href` starts with a slash, back from its address.
pub current_route-route_href :
    (value : Option String) (href : String)
    → starts_with "/" href ≡ true
    → current_route (get_base_path value) (route_href (get_base_path value) href) ≡ href
unfolding current_route route_href
current_route-route_href value href h = read (get_base_path value)
  where
    read :
        (base : String)
        → or_else
            (some (
              if truthy base && ((base <> href) == base || starts_with (base <> "/") (base <> href))
              then or_else (some (slice_after base (base <> href))) "/"
              else base <> href))
            "/"
          ≡ href
    read Text.[] = rw (nil-append href) (or_else-slash href h)
    read (Text.◌∷◌ c base) =
        let whole = Text.◌∷◌ c base in
        let inside = starts_with-append_append whole "/" href h in
        let chosen : (if (whole <> href) == whole || starts_with (whole <> "/") (whole <> href)
              then or_else (some (slice_after whole (whole <> href))) "/"
              else whole <> href)
            ≡ href =
          if_cases (λ x. x ≡ href)
            ((whole <> href) == whole || starts_with (whole <> "/") (whole <> href))
            (λ yes'.
              ap (λ t. or_else (some t) "/") (slice_after-append whole href) ∙ or_else-slash href h)
            (λ no'. absurd (false≢true (sym no' ∙ or_true _ _ inside))) in
        ap (λ t. or_else (some t) "/") chosen ∙ or_else-slash href h
