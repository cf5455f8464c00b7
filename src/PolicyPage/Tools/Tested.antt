-- ===== src/PolicyPage/Tools/Tested.antt =====
-- What a test of a site sends.
use Prim.Native.String as Text
use gatesentry.Shared.{
  String, true, false, none, some, ◌≡◌, refl, sym, ap, subst, ◌⊎◌, inl, inr, ◌&&◌, not,
  if◌then◌else◌, ◌<>◌, starts_with, if_cases, Bool-cases, arith,
}
use text.Mathlib.TextLemmas.{cons-append}
use gatesentry.PolicyPage.Tools.{PreviewRequest, Tools, text_includes, preview_request}

starts_with-longer : (p a b : String) → starts_with p a ≡ true → starts_with p (a <> b) ≡ true
starts_with-longer Text.[] a b h = refl
starts_with-longer (Text.◌∷◌ c p) Text.[] b h = cc
starts_with-longer (Text.◌∷◌ c p) (Text.◌∷◌ d a) b h =
    rw (cons-append d a b) (ground (arith, starts_with-longer p a b (ground arith)))

text_includes-empty : (s : String) → text_includes "" s ≡ true
text_includes-empty Text.[] = refl
text_includes-empty (Text.◌∷◌ c s) = refl

text_includes-append : (p a b : String) → text_includes p a ≡ true → text_includes p (a <> b) ≡ true
text_includes-append Text.[] Text.[] b h = text_includes-empty ("" <> b)
text_includes-append (Text.◌∷◌ d p) Text.[] b h = cc
text_includes-append p (Text.◌∷◌ c a) b h =
    subst (λ s. text_includes p s ≡ true) (sym (cons-append c a b))
      (elim (Bool-cases (starts_with p (Text.◌∷◌ c a))) [
        | inl here ↦
            let longer : starts_with p (Text.◌∷◌ c (a <> b)) ≡ true =
              subst (λ s. starts_with p s ≡ true) (cons-append c a b)
                (starts_with-longer p (Text.◌∷◌ c a) b here) in
            ground (arith, longer)
        | inr later ↦ ground (arith, text_includes-append p a b (ground (arith, h, later)))
      ])

abbrev sent_url : String → String
sent_url target =
    if text_includes "/" target && not (text_includes "://" target)
    then "https://" <> target
    else target

-- The one address of a request for a text: the text itself as a domain if it has no slash, and otherwise a URL
-- that contains :// and is the text itself or the text after https://.
abbrev pub IsAddressed : String → PreviewRequest → Type 0
IsAddressed target r =
    ((text_includes "/" target ≡ false) × (r.url ≡ none) × (r.domain ≡ some target))
    ⊎ ((text_includes "/" target ≡ true)
        × (r.domain ≡ none)
        × ((u : String) × (r.url ≡ some u)
            × (text_includes "://" u ≡ true)
            × ((u ≡ target) ⊎ ((u ≡ "https://" <> target) × (text_includes "://" target ≡ false)))))

-- A test of a text without a slash sends it as a domain and no URL. Any other text is sent as a URL and no domain;
-- the URL contains ://, and is the text, or the text after https:// if the text does not contain ://.
pub preview_request-IsAddressed :
    (target : String) (p : Tools) → IsAddressed target (preview_request target p)
unfolding preview_request
preview_request-IsAddressed target p = elim (Bool-cases (text_includes "/" target)) [
  | inl address ↦
      let url =
        if text_includes "/" target && not (text_includes "://" target)
        then "https://" <> target
        else target in
      inr (
        address,
        ap (λ b. if b then none else some target) address,
        (url, ap (λ b. if b then some url else none) address, schemed address, origin address),
      )
  | inr domain ↦ inl (
    domain,
    ap
        (λ b.
          if b
          then some (
              if text_includes "/" target && not (text_includes "://" target)
              then "https://" <> target
              else target)
          else none)
        domain,
    ap (λ b. if b then none else some target) domain,
  )
]
  where
    schemed :
        text_includes "/" target ≡ true
        → text_includes "://" (
            if text_includes "/" target && not (text_includes "://" target)
            then "https://" <> target
            else target)
          ≡ true
    schemed address =
        if_cases (λ u. text_includes "://" u ≡ true)
          (text_includes "/" target && not (text_includes "://" target))
          (λ bare. text_includes-append "://" "https://" target refl)
          (λ whole. ground (arith, address, whole))

    origin :
        text_includes "/" target ≡ true
        → (sent_url target ≡ target)
          ⊎ ((sent_url target ≡ "https://" <> target) × (text_includes "://" target ≡ false))
    origin address =
        if_cases
          (λ u. (u ≡ target) ⊎ ((u ≡ "https://" <> target) × (text_includes "://" target ≡ false)))
          (text_includes "/" target && not (text_includes "://" target))
          (λ bare. inr (refl, ground (arith, bare))) (λ whole. inl refl)
