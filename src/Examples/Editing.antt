-- ===== src/Examples/Editing.antt =====
-- The policy editor, ui/src/routes/rules/groupform.svelte, on a small draft.
use gatesentry.Shared.{
  String, false, none, some, List, [], ◌∷◌, ◌≡◌, refl, All, ◌↔◌, String_eq, arith,
}
use gatesentry.PolicyModel.Types.{SchedulePreset}
use gatesentry.PolicyModel.Copy.{persistable_group}
use gatesentry.PolicyModel.Summary.{is_bedtime_rule}
use gatesentry.GroupForm.Rule.{start, allow}
use gatesentry.GroupForm.Rule.Entries.{IsDistinct}
use gatesentry.GroupForm.Draft.{
  find_index, down, on_bedtime_time, Event, toggle_bedtime, bedtime_time, new_rule, shift_rule,
  change_rule, add_url, choose_action, choose_schedule, handle, after, edit,
}
use gatesentry.GroupForm.Draft.Bedtime.{HasNoBedtimeWindow, on_bedtime_time-eq-none_iff}
use gatesentry.GroupForm.Draft.Ready.{IsReady, edit-IsReady}
use gatesentry.GroupForm.Draft.Rejected.{IsAcceptable, choose_action_rejected}
use gatesentry.Examples.Drafts.{night, videos, kids, kids-IsClean}

abbrev presets : List SchedulePreset
presets =
    record {
      id = "bedtime";
      name = "Bedtime";
      description = "";
      timezone = "UTC";
      weekdays = 0 ∷ [];
      windows = night ∷ [];
    }
    ∷ []

abbrev zone : String
zone = "Europe/Berlin"

abbrev events : List Event
events =
    toggle_bedtime false
    ∷ new_rule
    ∷ shift_rule 0 down
    ∷ change_rule 1 add_url
    ∷ change_rule 0 (choose_schedule "bedtime")
    ∷ bedtime_time start "22:00"
    ∷ []

-- The row of the bedtime switch shows the first bedtime rule; without one its time edits nothing.
edit_tests :
    (find_index is_bedtime_rule kids.rules ≡ some 0)
    × (on_bedtime_time start "22:00" (videos ∷ []) ≡ some (videos ∷ []))
unfolding is_bedtime_rule on_bedtime_time
edit_tests = (refl, refl)

entries-IsDistinct : IsDistinct ("/watch" ∷ [])
entries-IsDistinct a = ground arith

none-IsDistinct : IsDistinct []
none-IsDistinct a = omega arith

kids-IsReady : IsReady kids
kids-IsReady = record {
  clean = kids-IsClean;
  windowed = (refl, (tt, tt));
  distinct = ((none-IsDistinct, none-IsDistinct), ((entries-IsDistinct, none-IsDistinct), tt));
}

edit-IsReady_example : IsReady (edit zone presets events kids)
edit-IsReady_example = edit-IsReady zone presets events kids refl (refl, tt) kids-IsReady

on_bedtime_time-eq-none_iff_example :
    (on_bedtime_time start "22:00" kids.rules ≡ none) ↔ HasNoBedtimeWindow kids.rules
on_bedtime_time-eq-none_iff_example = on_bedtime_time-eq-none_iff start "22:00" kids.rules

choose_action_rejected_example :
    ¬ All IsAcceptable
      (persistable_group
        (after kids (handle zone presets (change_rule 1 (choose_action allow)) kids))).rules
choose_action_rejected_example = choose_action_rejected zone presets kids 1 videos refl refl
