-- ===== src/GroupForm/Rule/Choice.antt =====
-- The schedule of a rule: the select, the presets and the first window.
use gatesentry.Shared.{
  ℕ, String, true, false, Option, none, some, List, [], ◌∷◌, ◌≡◌, refl, ◌∙◌, sym, ◌≢◌, arith, ◌==◌,
  Bool-cases, inl, inr, ◌⊎◌, find, truthy, or_else, eq_of_beq, String_eq, non_empty, All, map,
}
use gatesentry.PolicyModel.Types.{
  Schedule, SchedulePreset, GroupRule, TimeWindow, schedule_preset_custom,
}
use gatesentry.PolicyModel.Copy.Clean.{IsCleanRule, IsCleanSchedule?}
use gatesentry.GroupForm.Rule.{
  choice_of, schedule_choice, apply_preset, set_schedule_choice, preset_schedule, custom_schedule,
  WindowKey, set_weekdays, on_window_time_change, set_schedule_days, schedule_window_time,
}

-- The choice is one that the select offers: `Always`, custom hours, or one of the presets.
abbrev pub IsOffered : List SchedulePreset → String → Type 0
IsOffered presets choice =
    (choice ≡ "")
    ⊎ ((choice ≡ schedule_preset_custom)
        ⊎ ((p : SchedulePreset) × (find (λ q. q.id == choice) presets ≡ some p)))

find-id :
    (presets : List SchedulePreset) (choice : String) (p : SchedulePreset)
    → find (λ q. q.id == choice) presets ≡ some p
    → p.id ≡ choice
find-id [] choice p e = cc
find-id (q ∷ presets) choice p e = ground (arith, eq_of_beq q.id choice, find-id presets choice p)

or_else_self : (s d : String) → truthy s ≡ true → or_else (some s) d ≡ s
or_else_self String.[] d h = cc
or_else_self (String.◌∷◌ c s) d h = refl

shown_preset :
    (timezone : String) (presets : List SchedulePreset) (choice : String) (r : GroupRule)
    → truthy choice ≡ true
    → (choice == schedule_preset_custom) ≡ false
    → IsOffered presets choice
    → choice_of (apply_preset timezone (find (λ q. q.id == choice) presets) r).schedule ≡ choice
unfolding choice_of preset_schedule
shown_preset timezone presets choice r full other (inl e) = absurd (truthy_empty (rw e at full))
  where
    truthy_empty : truthy "" ≢ true
    truthy_empty h = cc
shown_preset timezone presets choice r full other (inr (inl e)) = absurd (distinct (rw e at other))
  where
    distinct : (schedule_preset_custom == schedule_preset_custom) ≢ false
    distinct h = cc
shown_preset timezone presets choice r full other (inr (inr (p, e))) =
    let same = find-id presets choice p e in
    rw e (or_else_self p.id schedule_preset_custom (rw same full) ∙ same)

-- After a choice that the select offers, the select shows that choice.
pub schedule_choice-set_schedule_choice :
    (timezone : String) (presets : List SchedulePreset) (choice : String) (r : GroupRule)
    → IsOffered presets choice
    → schedule_choice (set_schedule_choice timezone presets choice r) ≡ choice
unfolding schedule_choice set_schedule_choice
schedule_choice-set_schedule_choice timezone presets String.[] r offered = refl
schedule_choice-set_schedule_choice timezone presets (String.◌∷◌ c s) r offered =
    elim (Bool-cases (String.◌∷◌ c s == schedule_preset_custom)) [
      | inl custom ↦ rw custom (sym (eq_of_beq _ _ custom))
      | inr other ↦ rw other (shown_preset timezone presets _ r refl other offered)
    ]

-- A schedule has a window; so does the absence of one.
abbrev pub HasWindow : Option Schedule → Type 0
HasWindow none = Unit
HasWindow (some s) = non_empty s.windows ≡ true

abbrev pub HavePresetWindows : List SchedulePreset → Type 0
HavePresetWindows = All (λ p. non_empty p.windows ≡ true)

find-non_empty :
    (presets : List SchedulePreset) (choice : String) (p : SchedulePreset)
    → HavePresetWindows presets
    → find (λ q. q.id == choice) presets ≡ some p
    → non_empty p.windows ≡ true
find-non_empty [] choice p h e = cc
find-non_empty (q ∷ presets) choice p h e = ground (arith, find-non_empty presets choice p h.1)

pub non_empty-map :
    (ws : List TimeWindow) (f : TimeWindow → TimeWindow) → non_empty (map f ws) ≡ non_empty ws
non_empty-map [] f = refl
non_empty-map (w ∷ ws) f = refl

module _ (timezone : String) (presets : List SchedulePreset) where
  apply_preset-IsCleanRule :
      (choice : String) (r : GroupRule) (o : Option SchedulePreset)
      → truthy timezone ≡ true
      → truthy choice ≡ true
      → find (λ p. p.id == choice) presets ≡ o
      → IsCleanRule r
      → IsCleanRule (apply_preset timezone o r)
  unfolding preset_schedule
  apply_preset-IsCleanRule choice r none zoned full e h = h
  apply_preset-IsCleanRule choice r (some p) zoned full e h =
      let named : truthy p.id ≡ true = rw (find-id presets choice p e) full in
      record { decides = h.decides; timed = record { zoned = zoned; preset_named = rw named } }

  pub set_schedule_choice-IsCleanRule :
      (choice : String) (r : GroupRule)
      → truthy timezone ≡ true
      → IsCleanRule r
      → IsCleanRule (set_schedule_choice timezone presets choice r)
  unfolding set_schedule_choice custom_schedule
  set_schedule_choice-IsCleanRule String.[] r zoned h = record { decides = h.decides; timed = tt }
  set_schedule_choice-IsCleanRule (String.◌∷◌ c s) r zoned h =
      elim (Bool-cases (String.◌∷◌ c s == schedule_preset_custom)) [
        | inl custom ↦
            rw custom (record {
              decides = h.decides;
              timed = record { zoned = zoned; preset_named = refl };
            })
        | inr other ↦ rw other (apply_preset-IsCleanRule _ r _ zoned refl refl h)
      ]

  apply_preset-HasWindow :
      (choice : String) (r : GroupRule) (o : Option SchedulePreset)
      → HavePresetWindows presets
      → find (λ p. p.id == choice) presets ≡ o
      → HasWindow r.schedule
      → HasWindow (apply_preset timezone o r).schedule
  unfolding preset_schedule
  apply_preset-HasWindow choice r none given e h = h
  apply_preset-HasWindow choice r (some p) given e h =
      non_empty-map p.windows _ ∙ find-non_empty presets choice p given e

  pub set_schedule_choice-HasWindow :
      (choice : String) (r : GroupRule)
      → HavePresetWindows presets
      → HasWindow r.schedule
      → HasWindow (set_schedule_choice timezone presets choice r).schedule
  unfolding set_schedule_choice custom_schedule
  set_schedule_choice-HasWindow String.[] r given h = tt
  set_schedule_choice-HasWindow (String.◌∷◌ c s) r given h =
      elim (Bool-cases (String.◌∷◌ c s == schedule_preset_custom)) [
        | inl custom ↦ rw custom
        | inr other ↦ rw other (apply_preset-HasWindow _ r _ given refl h)
      ]

days-IsCleanSchedule :
    (days : List ℕ) (o : Option Schedule)
    → IsCleanSchedule? o
    → IsCleanSchedule? (set_schedule_days days o)
unfolding set_schedule_days
days-IsCleanSchedule days none h = h
days-IsCleanSchedule days (some s) h = record { zoned = h.zoned; preset_named = h.preset_named }

time-IsCleanSchedule :
    (key : WindowKey) (v : String) (o : Option Schedule)
    → IsCleanSchedule? o
    → IsCleanSchedule? (schedule_window_time key v o)
unfolding schedule_window_time
time-IsCleanSchedule key v none h = h
time-IsCleanSchedule key v (some s) h = record { zoned = h.zoned; preset_named = h.preset_named }

days-HasWindow :
    (days : List ℕ) (o : Option Schedule) → HasWindow o → HasWindow (set_schedule_days days o)
unfolding set_schedule_days
days-HasWindow days none h = h
days-HasWindow days (some s) h = h

time-HasWindow :
    (key : WindowKey) (v : String) (o : Option Schedule)
    → HasWindow o
    → HasWindow (schedule_window_time key v o)
unfolding schedule_window_time
time-HasWindow key v none h = h
time-HasWindow key v (some s) h = ground arith

-- Choosing days and typing a time keep the rule clean and the window of its schedule.
pub set_weekdays-keeps :
    (days : List ℕ) (r : GroupRule)
    → (IsCleanRule r → IsCleanRule (set_weekdays days r))
      × (HasWindow r.schedule → HasWindow (set_weekdays days r).schedule)
unfolding set_weekdays
set_weekdays-keeps days r = (
  λ h. record { decides = h.decides; timed = days-IsCleanSchedule days r.schedule h.timed },
  days-HasWindow days r.schedule,
)

pub on_window_time_change-keeps :
    (key : WindowKey) (v : String) (r : GroupRule)
    → (IsCleanRule r → IsCleanRule (on_window_time_change key v r))
      × (HasWindow r.schedule → HasWindow (on_window_time_change key v r).schedule)
unfolding on_window_time_change
on_window_time_change-keeps key v r = (
  λ h. record { decides = h.decides; timed = time-IsCleanSchedule key v r.schedule h.timed },
  time-HasWindow key v r.schedule,
)

apply_preset-entries :
    (timezone : String) (o : Option SchedulePreset) (r : GroupRule)
    → ((apply_preset timezone o r).url_regexes ≡ r.url_regexes)
      × ((apply_preset timezone o r).blocked_content_types ≡ r.blocked_content_types)
unfolding preset_schedule
apply_preset-entries timezone none r = (refl, refl)
apply_preset-entries timezone (some p) r = (refl, refl)

-- Choosing a schedule leaves the entry lists alone.
pub set_schedule_choice-entries :
    (timezone : String) (presets : List SchedulePreset) (choice : String) (r : GroupRule)
    → ((set_schedule_choice timezone presets choice r).url_regexes ≡ r.url_regexes)
      × ((set_schedule_choice timezone presets choice r).blocked_content_types
          ≡ r.blocked_content_types)
unfolding set_schedule_choice
set_schedule_choice-entries timezone presets choice r =
    ground (arith, apply_preset-entries timezone (find (λ p. p.id == choice) presets) r)
