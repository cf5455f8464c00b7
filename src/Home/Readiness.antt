-- ===== src/Home/Readiness.antt =====
-- When the overview says that the setup is done.
use mathlib.Core.Bool.{false≢true}
use mathlib.Core.Option.{some-injective}
use gatesentry.Shared.{
  ℕ, zero, suc, includes, filter, get_elem?, if◌then◌else◌, Bool, true, false, ◌⊎◌, Option, none,
  some, List, [], ◌∷◌, ◌≡◌, ◌↔◌, ◌∙◌, refl, sym, ap, subst, inl, inr, ◌&&◌, not, ◌==◌, non_empty,
  All, String_eq, eq_of_beq, arith, if_cases, Bool-cases,
}
use gatesentry.Home.{
  OnboardingStep, Page, readiness, next_index, first_pending, is_none, setup_done, measured_steps,
  steps_of,
}

-- One of the four steps that count
abbrev pub is_measured : OnboardingStep → Bool
is_measured step = includes measured_steps step.name

-- Some step passes a test.
abbrev pub Exists : (OnboardingStep → Bool) → List OnboardingStep → Type 0
Exists test steps = (i : ℕ) × (s : OnboardingStep) × (get_elem? steps i ≡ some s) × (test s ≡ true)

later :
    (test : OnboardingStep → Bool) (s : OnboardingStep) (ss : List OnboardingStep)
    → test s ≡ false
    → Exists test (s ∷ ss)
    → Exists test ss
later test s ss other (zero, r, e, h) =
    absurd (false≢true (sym other ∙ (ap test (some-injective _ _ e) ∙ h)))
later test s ss other (suc i, r, e, h) = (i, r, e, h)

is_none-next_index : (o : Option ℕ) → is_none (next_index o) ≡ is_none o
is_none-next_index none = refl
is_none-next_index (some i) = refl

first_pending-cons :
    (s : OnboardingStep) (ss : List OnboardingStep)
    → is_none (first_pending (s ∷ ss)) ≡ ((s.state == "ok") && is_none (first_pending ss))
first_pending-cons s ss =
    if_cases (λ (o : Option ℕ). is_none o ≡ ((s.state == "ok") && is_none (first_pending ss)))
      (not (s.state == "ok")) (λ bad. ground (arith, bad))
      (λ ok. is_none-next_index (first_pending ss) ∙ ground (arith, ok))

first_pending-eq-none_iff :
    (steps : List OnboardingStep)
    → (is_none (first_pending steps) ≡ true) ↔ All (λ (s : OnboardingStep). s.state ≡ "ok") steps
first_pending-eq-none_iff [] = (λ h. tt, λ h. refl)
first_pending-eq-none_iff (s ∷ ss) =
    let (only, every) = first_pending-eq-none_iff ss in
    let cons = first_pending-cons s ss in
    (
      λ h.
          let both = sym cons ∙ h in
          (eq_of_beq s.state "ok" (ground (arith, both)), only (ground (arith, both))),
      λ (ok, rest).
          let here : (s.state == "ok") ≡ true = ap (λ x. x == "ok") ok in
          cons ∙ ground (arith, here, every rest),
    )

-- A kept element is one of the list that passes the test.
filter-non_empty_iff :
    (test : OnboardingStep → Bool) (steps : List OnboardingStep)
    → (non_empty (filter test steps) ≡ true) ↔ Exists test steps
filter-non_empty_iff test [] = (λ h. cc, λ (i, s, e, h). cc)
filter-non_empty_iff test (s ∷ ss) =
    let (found, given) = filter-non_empty_iff test ss in
    elim (Bool-cases (test s)) [
      | inl here ↦ (
        λ h. (0, s, refl, here),
        λ h. ap (λ b. non_empty (if b then s ∷ filter test ss else filter test ss)) here,
      )
      | inr other ↦
          let rest : non_empty (filter test (s ∷ ss)) ≡ non_empty (filter test ss) =
            ap (λ b. non_empty (if b then s ∷ filter test ss else filter test ss)) other in
          (
            λ h. let (i, r, e, k) = found (sym rest ∙ h) in (suc i, r, e, k),
            λ h. rest ∙ given (later test s ss other h),
          )
    ]

-- All kept elements have a property if every element fails the test or has it.
filter-All_iff :
    (test : OnboardingStep → Bool) (P : OnboardingStep → Type 0) (steps : List OnboardingStep)
    → All P (filter test steps) ↔ All (λ s. (test s ≡ false) ⊎ P s) steps
filter-All_iff test P [] = (λ h. tt, λ h. tt)
filter-All_iff test P (s ∷ ss) =
    let (out, in_) = filter-All_iff test P ss in
    elim (Bool-cases (test s)) [
      | inl kept ↦ (
        λ h.
            let (q, rest) =
              subst (λ b. All P (if b then s ∷ filter test ss else filter test ss)) kept h in
            (inr q, out rest),
        λ h.
            subst (λ b. All P (if b then s ∷ filter test ss else filter test ss)) (sym kept)
              (has kept h.0, in_ h.1),
      )
      | inr dropped ↦ (
        λ h. (
          inl dropped,
          out (subst (λ b. All P (if b then s ∷ filter test ss else filter test ss)) dropped h),
        ),
        λ h.
            subst (λ b. All P (if b then s ∷ filter test ss else filter test ss)) (sym dropped)
              (in_ h.1),
      )
    ]
  where
    has : test s ≡ true → (test s ≡ false) ⊎ P s → P s
    has kept (inl dropped) = absurd (false≢true (sym dropped ∙ kept))
    has kept (inr q) = q

-- The overview says that the setup is done exactly if the server reports a step whose name is one of the four
-- measured steps, and every reported step is in the state ok or is not a measured one.
pub setup_done_iff :
    (p : Page)
    → (setup_done p ≡ true) ↔ (
        Exists is_measured (steps_of p.status)
        × All
            (λ (s : OnboardingStep). (is_measured s ≡ false) ⊎ (s.state ≡ "ok"))
            (steps_of p.status))
unfolding setup_done readiness
setup_done_iff p =
    let (only, every) = first_pending-eq-none_iff (readiness p) in
    let (found, given) = filter-non_empty_iff is_measured (steps_of p.status) in
    let (out, back) =
      filter-All_iff is_measured (λ (s : OnboardingStep). s.state ≡ "ok") (steps_of p.status) in
    (
      λ h. (found (ground (arith, h)), out (only (ground (arith, h)))),
      λ (some_step, ok). ground (arith, given some_step, every (back ok)),
    )
