-- ===== src/GroupForm/Draft/Ready.antt =====
-- Editing as a whole: what every draft that the form reaches satisfies.
use gatesentry.Shared.{
  ℕ, String, true, Option, none, some, List, ◌≡◌, ◌∙◌, subst, refl, arith, All, truthy, non_empty,
  Bool-cases, inl, inr,
}
use gatesentry.PolicyModel.Types.{Schedule, SchedulePreset, GroupRule, PolicyGroup}
use gatesentry.PolicyModel.Copy.Clean.{IsCleanSchedule, IsCleanSchedule?, IsCleanRule}
use gatesentry.PolicyModel.Summary.{bedtime_rule}
use gatesentry.GroupForm.Rule.{WindowKey}
use gatesentry.GroupForm.Rule.Choice.{HasWindow, HavePresetWindows, non_empty-map}
use gatesentry.GroupForm.Draft.{write_bedtime, bedtime_days, Event, edit}
use gatesentry.GroupForm.Draft.Bedtime.{IsRetimed, write_bedtime_lem}
use gatesentry.GroupForm.Draft.Edits.{
  HasDistinctEntries, edit_rule-IsCleanRule, edit_rule-HasWindow, edit_rule-HasDistinctEntries,
}
use gatesentry.GroupForm.Draft.Invariant.{IsKept, edit-All}

-- Every rule of the draft is clean, every schedule has a window, and every entry list names each
-- entry once.
pub record IsReady (d : PolicyGroup) : Type 0 where
  pub clean : All IsCleanRule d.rules
  pub windowed : All (λ r. HasWindow r.schedule) d.rules
  pub distinct : All HasDistinctEntries d.rules

bedtime_rule-HasWindow :
    (timezone : String) (p : Option SchedulePreset) → HasWindow (bedtime_rule timezone p).schedule
unfolding bedtime_rule
bedtime_rule-HasWindow timezone none = refl
bedtime_rule-HasWindow timezone (some p) = elim (Bool-cases (non_empty p.windows)) [
  | inl given ↦ rw given (non_empty-map p.windows _ ∙ given)
  | inr bare ↦ rw bare
]

bedtime_rule-IsCleanRule :
    (timezone : String) (p : Option SchedulePreset)
    → truthy timezone ≡ true
    → IsCleanRule (bedtime_rule timezone p)
unfolding bedtime_rule
bedtime_rule-IsCleanRule timezone p zoned = record {
  decides = inr refl;
  timed = record { zoned = zoned; preset_named = refl };
}

timed-keeps :
    (P : GroupRule → Type 0)
    → ((r : GroupRule) (s s' : Schedule)
        → r.schedule ≡ some s
        → IsRetimed s s'
        → P r
        → P (record r { schedule = some s' }))
    → (key : WindowKey) (v : String) (r r' : GroupRule) → write_bedtime key v r ≡ some r'
    → P r
    → P r'
timed-keeps P keep key v r r' wrote p = elim (write_bedtime_lem key v r r' wrote) [
  | inl same ↦ subst P same p
  | inr (s, s', timed, retimed, same) ↦ subst P same (keep r s s' timed retimed p)
]

retimed-IsClean : (s s' : Schedule) → IsRetimed s s' → IsCleanSchedule s → IsCleanSchedule s'
retimed-IsClean s s' t h = record { zoned = rw t.same_zone h.zoned; preset_named = rw t.no_preset }

bedtime_days-IsClean :
    (days : List ℕ) (o : Option Schedule)
    → IsCleanSchedule? o
    → IsCleanSchedule? (bedtime_days days o)
bedtime_days-IsClean days none h = h
bedtime_days-IsClean days (some s) h = record { zoned = h.zoned; preset_named = refl }

bedtime_days-HasWindow :
    (days : List ℕ) (o : Option Schedule) → HasWindow o → HasWindow (bedtime_days days o)
bedtime_days-HasWindow days none h = h
bedtime_days-HasWindow days (some s) h = h

module _ (timezone : String) (presets : List SchedulePreset) where
  clean-IsKept : truthy timezone ≡ true → IsKept IsCleanRule timezone presets
  clean-IsKept zoned = record {
    fresh = record { decides = inr refl; timed = tt };
    bedtime = λ p. bedtime_rule-IsCleanRule timezone p zoned;
    edited = λ e r h. edit_rule-IsCleanRule timezone presets e r zoned h;
    timed = timed-keeps IsCleanRule (λ r s s' e t h. record {
      decides = h.decides;
      timed = retimed-IsClean s s' t (subst IsCleanSchedule? e h.timed);
    });
    dayed = λ days r h. record {
      decides = h.decides;
      timed = bedtime_days-IsClean days r.schedule h.timed;
    };
  }

  windowed-IsKept : HavePresetWindows presets → IsKept (λ r. HasWindow r.schedule) timezone presets
  windowed-IsKept given = record {
    fresh = tt;
    bedtime = bedtime_rule-HasWindow timezone;
    edited = λ e r h. edit_rule-HasWindow timezone presets e r given h;
    timed = timed-keeps (λ r. HasWindow r.schedule) (λ r s s' e t h. t.windowed);
    dayed = λ days r h. bedtime_days-HasWindow days r.schedule h;
  }

  distinct-IsKept : IsKept HasDistinctEntries timezone presets
  distinct-IsKept = record {
    fresh = (λ a. omega arith, λ a. omega arith);
    bedtime = λ p. unfold bedtime_rule in (λ a. omega arith, λ a. omega arith);
    edited = edit_rule-HasDistinctEntries timezone presets;
    timed = timed-keeps HasDistinctEntries (λ r s s' e t h. h);
    dayed = λ days r h. h;
  }

-- No edit can break a draft whose rules are clean, whose schedules have a window and whose entry
-- lists name each entry once: whatever the events, it stays so, if the form's time zone is not empty
-- and every preset has a window.
pub edit-IsReady :
    (timezone : String) (presets : List SchedulePreset) (es : List Event) (d : PolicyGroup)
    → truthy timezone ≡ true
    → HavePresetWindows presets
    → IsReady d
    → IsReady (edit timezone presets es d)
edit-IsReady timezone presets es d zoned given h = record {
  clean = edit-All (clean-IsKept timezone presets zoned) es d h.clean;
  windowed = edit-All (windowed-IsKept timezone presets given) es d h.windowed;
  distinct = edit-All (distinct-IsKept timezone presets) es d h.distinct;
}
