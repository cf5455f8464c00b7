-- ===== src/GroupForm/Draft/Bedtime.antt =====
-- The bedtime switch and its row: `setBedtime`, `onBedtimeTime` and `onBedtimeDays`.
use gatesentry.Shared.{
  ℕ, suc, ◌-◌, String, true, false, Option, none, some, List, [], ◌∷◌, ◌≡◌, refl, ◌∙◌, ap, ◌↔◌,
  ◌==◌, String_eq, inl, inr, arith, Bool-cases, Option-cases, not, filter, find, length,
  if◌then◌else◌, option_map, option_map-eq-some, non_empty, ◌⊎◌,
}
use mathlib.Core.Option.{some-injective}
use gatesentry.PolicyModel.Types.{Schedule, SchedulePreset, GroupRule}
use gatesentry.PolicyModel.Summary.{is_bedtime_rule}
use gatesentry.PolicyModel.Summary.Laws.{is_bedtime_rule-bedtime_rule}
use gatesentry.GroupForm.Draft.{
  find_index, set_bedtime, switch_off, remove_rule, write_window, write_bedtime, on_bedtime_time,
}
use gatesentry.GroupForm.Rule.{WindowKey}

module _ (timezone : String) (presets : List SchedulePreset) where
  -- Switching bedtime on and off again restores the rules of a policy that had no bedtime rule.
  pub set_bedtime_off_on :
      (rules : List GroupRule)
      → find_index is_bedtime_rule rules ≡ none
      → set_bedtime timezone presets false (set_bedtime timezone presets true rules) ≡ rules
  unfolding set_bedtime
  set_bedtime_off_on rules absent =
      rw (absent, is_bedtime_rule-bedtime_rule timezone (find (λ p. p.id == "bedtime") presets))

  -- Switching bedtime on a second time changes nothing.
  pub set_bedtime_on_on :
      (rules : List GroupRule)
      → set_bedtime timezone presets true (set_bedtime timezone presets true rules)
        ≡ set_bedtime timezone presets true rules
  unfolding set_bedtime
  set_bedtime_on_on rules = elim (Option-cases (find_index is_bedtime_rule rules)) [
    | inl absent ↦
        rw (absent, is_bedtime_rule-bedtime_rule timezone (find (λ p. p.id == "bedtime") presets))
    | inr (i, present) ↦ rw present (rw present)
  ]

-- The rules without the first bedtime rule.
abbrev pub without_first_bedtime : List GroupRule → List GroupRule
without_first_bedtime [] = []
without_first_bedtime (r ∷ rs) =
    let rest = r ∷ without_first_bedtime rs in if is_bedtime_rule r then rs else rest

switch_off-cons :
    (r : GroupRule) (rs : List GroupRule) (o : Option ℕ)
    → switch_off (option_map suc o) (r ∷ rs) ≡ r ∷ switch_off o rs
unfolding switch_off remove_rule
switch_off-cons r rs none = refl
switch_off-cons r rs (some i) = refl

switch_off_lem :
    (rules : List GroupRule)
    → switch_off (find_index is_bedtime_rule rules) rules ≡ without_first_bedtime rules
unfolding switch_off remove_rule
switch_off_lem [] = refl
switch_off_lem (r ∷ rs) = elim (Bool-cases (is_bedtime_rule r)) [
  | inl here ↦ rw here
  | inr later ↦ rw later (switch_off-cons r rs _ ∙ ap (r ∷◌) (switch_off_lem rs))
]

bedtimes-without_first :
    (rules : List GroupRule)
    → length (filter is_bedtime_rule (without_first_bedtime rules))
      ≡ length (filter is_bedtime_rule rules) - 1
bedtimes-without_first [] = omega arith
bedtimes-without_first (r ∷ rs) = ground (arith, bedtimes-without_first rs)

others-without_first :
    (rules : List GroupRule)
    → filter (λ r. not (is_bedtime_rule r)) (without_first_bedtime rules)
      ≡ filter (λ r. not (is_bedtime_rule r)) rules
others-without_first [] = refl
others-without_first (r ∷ rs) = ground (arith, others-without_first rs)

set_bedtime_off_lem :
    (timezone : String) (presets : List SchedulePreset) (rules : List GroupRule)
    → set_bedtime timezone presets false rules ≡ without_first_bedtime rules
unfolding set_bedtime
set_bedtime_off_lem timezone presets rules = switch_off_lem rules

-- Switching bedtime off removes one bedtime rule, if there is one, and keeps every other rule in
-- its place.
pub set_bedtime_off :
    (timezone : String) (presets : List SchedulePreset) (rules : List GroupRule)
    → (length (filter is_bedtime_rule (set_bedtime timezone presets false rules))
        ≡ length (filter is_bedtime_rule rules) - 1)
      × (filter (λ r. not (is_bedtime_rule r)) (set_bedtime timezone presets false rules)
          ≡ filter (λ r. not (is_bedtime_rule r)) rules)
set_bedtime_off timezone presets rules =
    rw (set_bedtime_off_lem timezone presets rules)
      (bedtimes-without_first rules, others-without_first rules)

-- The first bedtime rule has a schedule with no window.
abbrev pub HasNoBedtimeWindow : List GroupRule → Type 0
HasNoBedtimeWindow rules =
    (r : GroupRule) × (s : Schedule) × (find is_bedtime_rule rules ≡ some r)
    × (r.schedule ≡ some s)
    × (s.windows ≡ [])

pub option_map-eq-none :
    {A B : Type 0} (f : A → B) (o : Option A) → option_map f o ≡ none → o ≡ none
option_map-eq-none f none h = refl
option_map-eq-none f (some a) h = cc

write_bedtime-eq-none :
    (key : WindowKey) (v : String) (r : GroupRule)
    → write_bedtime key v r ≡ none
    → (s : Schedule) × (r.schedule ≡ some s) × (s.windows ≡ [])
unfolding write_bedtime
write_bedtime-eq-none key v r h = ground arith

throws_of :
    (key : WindowKey) (v : String) (rules : List GroupRule)
    → on_bedtime_time key v rules ≡ none
    → HasNoBedtimeWindow rules
unfolding on_bedtime_time
throws_of key v [] h = cc
throws_of key v (r ∷ rs) h = elim (Bool-cases (is_bedtime_rule r)) [
  | inl here ↦
      let (s, timed, bare) =
        write_bedtime-eq-none key v r (option_map-eq-none _ _ (rw here at h)) in
      (r, s, rw here, timed, bare)
  | inr later ↦
      let (q, s, found, timed, bare) =
        throws_of key v rs (option_map-eq-none _ _ (rw later at h)) in
      (q, s, rw later found, timed, bare)
]

write_bedtime_throws :
    (key : WindowKey) (v : String) (r : GroupRule) (s : Schedule)
    → r.schedule ≡ some s
    → s.windows ≡ []
    → write_bedtime key v r ≡ none
unfolding write_bedtime
write_bedtime_throws key v r s timed bare = ground arith

of_throws :
    (key : WindowKey) (v : String) (rules : List GroupRule)
    → HasNoBedtimeWindow rules
    → on_bedtime_time key v rules ≡ none
unfolding on_bedtime_time
of_throws key v [] h = cc (h.2)
of_throws key v (r ∷ rs) (q, s, found, timed, bare) = elim (Bool-cases (is_bedtime_rule r)) [
  | inl here ↦ ground (arith, write_bedtime_throws key v r s)
  | inr later ↦ rw (later, of_throws key v rs (q, s, rw later at found, timed, bare))
]

-- Editing a bedtime time throws exactly when the first bedtime rule has a schedule without a
-- window: this handler, unlike the one for a rule's own times, does not test for that.
pub on_bedtime_time-eq-none_iff :
    (key : WindowKey) (v : String) (rules : List GroupRule)
    → (on_bedtime_time key v rules ≡ none) ↔ HasNoBedtimeWindow rules
on_bedtime_time-eq-none_iff key v rules = (throws_of key v rules, of_throws key v rules)

write_bedtime-is_bedtime_rule :
    (key : WindowKey) (v : String) (r r' : GroupRule)
    → write_bedtime key v r ≡ some r'
    → is_bedtime_rule r' ≡ is_bedtime_rule r
unfolding write_bedtime is_bedtime_rule
write_bedtime-is_bedtime_rule key v r r' h = ground arith

-- What a write of a bedtime does to a schedule: it keeps its zone, loses its preset and has a
-- window.
pub record IsRetimed (s s' : Schedule) : Type 0 where
  pub same_zone : s'.timezone ≡ s.timezone
  pub no_preset : s'.preset ≡ none
  pub windowed : non_empty s'.windows ≡ true

write_window-IsRetimed :
    (key : WindowKey) (v : String) (s s' : Schedule)
    → write_window key v s ≡ some s'
    → IsRetimed s s'
unfolding write_window
write_window-IsRetimed key v s s' h = record {
  same_zone = ground arith;
  no_preset = ground arith;
  windowed = ground arith;
}

pub write_bedtime_lem :
    (key : WindowKey) (v : String) (r r' : GroupRule)
    → write_bedtime key v r ≡ some r'
    → (r ≡ r')
      ⊎ ((s s' : Schedule) × (r.schedule ≡ some s)
          × IsRetimed s s'
          × (record r { schedule = some s' } ≡ r'))
unfolding write_bedtime
write_bedtime_lem key v r r' wrote = elim (Option-cases r.schedule) [
  | inl bare ↦ inl (some-injective _ _ (rw (bare, write_bedtime) at wrote))
  | inr (s, timed) ↦
      let (s', done, same) = option_map-eq-some _ _ (rw (timed, write_bedtime) at wrote) in
      inr (s, s', timed, write_window-IsRetimed key v s s' done, same)
]
