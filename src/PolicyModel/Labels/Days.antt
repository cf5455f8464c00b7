-- ===== src/PolicyModel/Labels/Days.antt =====
-- The weekday label: which days it names, and when it is empty.
use mathlib.Core.List.{Perm, Permᴰ}
use mathlib.Core.Logic.{∥∥₁_elim}
use gatesentry.Shared.{
  String-set, ℕ, zero, suc, ◌≤◌, ◌<◌, String, true, some, non_empty, get_elem?, truthy, ◌<>◌, ◌≢◌,
  ap₂, List, [], ◌∷◌, ◌≡◌, refl, ap, ◌∙◌, ◌⊎◌, ◌↔◌, inl, inr, arith, All, leb, length, Bool-cases,
  join,
}
use text.Mathlib.TextLemmas.{cons-append}
use gatesentry.PolicyModel.Types.{weekday_names}
use gatesentry.PolicyModel.Labels.{insert_day, sort_days, day_names, weekday_label}

insert_day_comm :
    (a b : ℕ) (l : List ℕ) → insert_day a (insert_day b l) ≡ insert_day b (insert_day a l)
unfolding insert_day
insert_day_comm a b [] = ground arith
insert_day_comm a b (c ∷ l) = ground (arith, insert_day_comm a b l)

non_empty_by_length : (xs ys : List ℕ) → length xs ≡ length ys → non_empty xs ≡ non_empty ys
non_empty_by_length [] [] h = refl
non_empty_by_length [] (y ∷ ys) h = absurd (omega arith)
non_empty_by_length (x ∷ xs) [] h = absurd (omega arith)
non_empty_by_length (x ∷ xs) (y ∷ ys) h = refl

length-insert_day : (a : ℕ) (l : List ℕ) → length (insert_day a l) ≡ suc (length l)
unfolding insert_day
length-insert_day a [] = refl
length-insert_day a (b ∷ l) = ground (arith, length-insert_day a l)

length-sort_days : (l : List ℕ) → length (sort_days l) ≡ length l
unfolding sort_days
length-sort_days [] = refl
length-sort_days (a ∷ l) = length-insert_day a (sort_days l) ∙ ap suc (length-sort_days l)

sort_days-Permᴰ :
    {xs ys : List ℕ} → Permᴰ xs ys → (sort_days xs ≡ sort_days ys) × (length xs ≡ length ys)
unfolding sort_days
sort_days-Permᴰ Permᴰ.nil = (refl, refl)
sort_days-Permᴰ (Permᴰ.cons e d) =
    let (same, long) = sort_days-Permᴰ d in (ap₂ insert_day e same, ap suc long)
sort_days-Permᴰ (Permᴰ.swap {a} {b} {l} e f) =
    (rw (← e, ← f) (insert_day_comm a b (sort_days l)), refl)
sort_days-Permᴰ (Permᴰ.trans d e) =
    let (same, long) = sort_days-Permᴰ d in
    let (same', long') = sort_days-Permᴰ e in (same ∙ same', long ∙ long')

weekday_label-Permᴰ : {xs ys : List ℕ} → Permᴰ xs ys → weekday_label xs ≡ weekday_label ys
unfolding weekday_label
weekday_label-Permᴰ {xs} {ys} d =
    let (same, long) = sort_days-Permᴰ d in rw (same, non_empty_by_length xs ys long, long)

-- The label of a schedule's days does not depend on the order in which the days are listed.
pub weekday_label-perm : (xs ys : List ℕ) → Perm xs ys → weekday_label xs ≡ weekday_label ys
weekday_label-perm xs ys p = ∥∥₁_elim p (String-set _ _) weekday_label-Permᴰ

All-insert_day :
    (n a : ℕ) (l : List ℕ) → a < n → All (λ d. d < n) l → All (λ d. d < n) (insert_day a l)
unfolding insert_day
All-insert_day n a [] p h = (p, tt)
All-insert_day n a (b ∷ l) p h = elim (Bool-cases (leb a b)) [
  | inl first ↦ rw first (p, h)
  | inr later ↦ rw later (h.0, All-insert_day n a l p h.1)
]

All-sort_days : (n : ℕ) (l : List ℕ) → All (λ d. d < n) l → All (λ d. d < n) (sort_days l)
unfolding sort_days
All-sort_days n [] h = tt
All-sort_days n (a ∷ l) h = All-insert_day n a (sort_days l) h.0 (All-sort_days n l h.1)

truthy-append : (s t : String) → truthy s ≡ true → truthy (s <> t) ≡ true
truthy-append String.[] t h = cc
truthy-append (String.◌∷◌ c s) t h = rw cons-append

truthy-join :
    (sep s : String) (rest : List String) → truthy s ≡ true → truthy (join sep (s ∷ rest)) ≡ true
unfolding join
truthy-join sep s [] h = h
truthy-join sep s (t ∷ rest) h = truthy-append s _ h

weekday_name_of_lt :
    (d : ℕ)
    → d < 7
    → (name : String) × (get_elem? weekday_names d ≡ some name) × (truthy name ≡ true)
weekday_name_of_lt zero h = (_, refl, refl)
weekday_name_of_lt (suc zero) h = (_, refl, refl)
weekday_name_of_lt (suc (suc zero)) h = (_, refl, refl)
weekday_name_of_lt (suc (suc (suc zero))) h = (_, refl, refl)
weekday_name_of_lt (suc (suc (suc (suc zero)))) h = (_, refl, refl)
weekday_name_of_lt (suc (suc (suc (suc (suc zero))))) h = (_, refl, refl)
weekday_name_of_lt (suc (suc (suc (suc (suc (suc zero)))))) h = (_, refl, refl)
weekday_name_of_lt (suc (suc (suc (suc (suc (suc (suc d))))))) h = absurd (omega arith)

truthy-join-day_names :
    (ds : List ℕ) → 0 < length ds → All (λ d. d < 7) ds → truthy (join ", " (day_names ds)) ≡ true
unfolding day_names
truthy-join-day_names [] h a = elim h [ ]
truthy-join-day_names (d ∷ ds) h a =
    let (name, found, named) = weekday_name_of_lt d a.0 in
    rw (found, day_names) (truthy-join ", " name (day_names ds) named)

-- For weekday numbers, the label is empty exactly when the list is empty or has seven entries or
-- more; otherwise it names at least one day.
pub weekday_label-eq-empty_iff :
    (days : List ℕ)
    → All (λ d. d < 7) days
    → (weekday_label days ≡ "") ↔ ((days ≡ []) ⊎ (7 ≤ length days))
unfolding weekday_label
weekday_label-eq-empty_iff [] h = (λ e. inl refl, λ c. refl)
weekday_label-eq-empty_iff (d ∷ ds) h = elim (Bool-cases (leb 7 (length (d ∷ ds)))) [
  | inl all ↦ (λ e. inr (ground arith), λ c. rw all)
  | inr some_days ↦ (λ e. absurd (not_empty (rw some_days at e)), λ c. ground arith)
]
  where
    not_empty : join ", " (day_names (sort_days (d ∷ ds))) ≢ ""
    not_empty e = cc (
      e,
      truthy-join-day_names (sort_days (d ∷ ds)) (omega (arith, length-sort_days (d ∷ ds)))
          (All-sort_days 7 (d ∷ ds) h),
    )
