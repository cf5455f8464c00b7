-- ===== src/GroupForm/Draft/Edits.antt =====
-- The three properties of a rule that each of its controls keeps.
use gatesentry.Shared.{
  String, Bool, true, false, List, ◌≡◌, refl, subst, sym, ◌⊎◌, inl, inr, arith, String_eq, truthy,
}
use mathlib.Core.Path.{subst₂}
use gatesentry.PolicyModel.Types.{SchedulePreset, GroupRule}
use gatesentry.PolicyModel.Copy.Clean.{IsCleanRule}
use gatesentry.GroupForm.Rule.{
  Action, ListField, action_text, block, allow, url, content, add_list_entry, remove_list_entry,
  set_rule_users, set_weekdays, on_window_time_change, set_target_kind,
}
use gatesentry.GroupForm.Rule.Choice.{
  HasWindow, set_schedule_choice-IsCleanRule, set_schedule_choice-HasWindow, HavePresetWindows,
  set_weekdays-keeps, on_window_time_change-keeps, set_schedule_choice-entries,
}
use gatesentry.GroupForm.Rule.Entries.{
  IsDistinct, add_list_entry-IsDistinct, remove_list_entry-IsDistinct,
}
use gatesentry.GroupForm.Draft.{
  RuleEdit, choose_action, add_url, add_content, remove_entry, choose_days, choose_schedule,
  choose_time, edit_rule,
}

decides_text : (a : Action) → (action_text a ≡ "allow") ⊎ (action_text a ≡ "block")
decides_text block = inr refl
decides_text allow = inl refl

add_list_entry-same :
    (field : ListField) (lower : Bool) (r : GroupRule)
    → ((add_list_entry field lower r).action ≡ r.action)
      × ((add_list_entry field lower r).schedule ≡ r.schedule)
unfolding add_list_entry
add_list_entry-same url lower r = ground arith
add_list_entry-same content lower r = ground arith

remove_list_entry-same :
    (field : ListField) (v : String) (r : GroupRule)
    → ((remove_list_entry field v r).action ≡ r.action)
      × ((remove_list_entry field v r).schedule ≡ r.schedule)
unfolding remove_list_entry
remove_list_entry-same url v r = (refl, refl)
remove_list_entry-same content v r = (refl, refl)

clean_of_same :
    (r r' : GroupRule)
    → (r'.action ≡ r.action) × (r'.schedule ≡ r.schedule)
    → IsCleanRule r
    → IsCleanRule r'
clean_of_same r r' (a, s) h = record { decides = rw a h.decides; timed = rw s h.timed }

pub edit_rule-IsCleanRule :
    (timezone : String) (presets : List SchedulePreset) (e : RuleEdit) (r : GroupRule)
    → truthy timezone ≡ true
    → IsCleanRule r
    → IsCleanRule (edit_rule timezone presets e r)
unfolding edit_rule set_target_kind set_rule_users
edit_rule-IsCleanRule timezone presets (choose_action a) r zoned h = record {
  decides = decides_text a;
  timed = h.timed;
}
edit_rule-IsCleanRule timezone presets add_url r zoned h =
    clean_of_same r _ (add_list_entry-same url false r) h
edit_rule-IsCleanRule timezone presets add_content r zoned h =
    clean_of_same r _ (add_list_entry-same content true r) h
edit_rule-IsCleanRule timezone presets (remove_entry field v) r zoned h =
    clean_of_same r _ (remove_list_entry-same field v r) h
edit_rule-IsCleanRule timezone presets (choose_days days) r zoned h =
    (set_weekdays-keeps days r).0 h
edit_rule-IsCleanRule timezone presets (choose_schedule choice) r zoned h =
    set_schedule_choice-IsCleanRule timezone presets choice r zoned h
edit_rule-IsCleanRule timezone presets (choose_time key v) r zoned h =
    (on_window_time_change-keeps key v r).0 h
edit_rule-IsCleanRule timezone presets _ r zoned h = record { decides = h.decides; timed = h.timed }

pub edit_rule-HasWindow :
    (timezone : String) (presets : List SchedulePreset) (e : RuleEdit) (r : GroupRule)
    → HavePresetWindows presets
    → HasWindow r.schedule
    → HasWindow (edit_rule timezone presets e r).schedule
unfolding edit_rule set_target_kind set_rule_users
edit_rule-HasWindow timezone presets add_url r given h =
    subst HasWindow (sym (add_list_entry-same url false r).1) h
edit_rule-HasWindow timezone presets add_content r given h =
    subst HasWindow (sym (add_list_entry-same content true r).1) h
edit_rule-HasWindow timezone presets (remove_entry field v) r given h =
    subst HasWindow (sym (remove_list_entry-same field v r).1) h
edit_rule-HasWindow timezone presets (choose_days days) r given h = (set_weekdays-keeps days r).1 h
edit_rule-HasWindow timezone presets (choose_schedule choice) r given h =
    set_schedule_choice-HasWindow timezone presets choice r given h
edit_rule-HasWindow timezone presets (choose_time key v) r given h =
    (on_window_time_change-keeps key v r).1 h
edit_rule-HasWindow timezone presets _ r given h = h

-- Both entry lists of a rule name each entry once.
abbrev pub HasDistinctEntries : GroupRule → Type 0
HasDistinctEntries r = IsDistinct r.url_regexes × IsDistinct r.blocked_content_types

add_list_entry-other :
    (lower : Bool) (r : GroupRule)
    → ((add_list_entry url lower r).blocked_content_types ≡ r.blocked_content_types)
      × ((add_list_entry content lower r).url_regexes ≡ r.url_regexes)
unfolding add_list_entry
add_list_entry-other lower r = ground arith

add_list_entry-HasDistinctEntries :
    (field : ListField) (lower : Bool) (r : GroupRule)
    → HasDistinctEntries r
    → HasDistinctEntries (add_list_entry field lower r)
add_list_entry-HasDistinctEntries url lower r h = (
  add_list_entry-IsDistinct url lower r h.0,
  subst IsDistinct (sym (add_list_entry-other lower r).0) h.1,
)
add_list_entry-HasDistinctEntries content lower r h = (
  subst IsDistinct (sym (add_list_entry-other lower r).1) h.0,
  add_list_entry-IsDistinct content lower r h.1,
)

remove_list_entry-HasDistinctEntries :
    (field : ListField) (v : String) (r : GroupRule)
    → HasDistinctEntries r
    → HasDistinctEntries (remove_list_entry field v r)
unfolding remove_list_entry
remove_list_entry-HasDistinctEntries url v r h = (remove_list_entry-IsDistinct url v r h.0, h.1)
remove_list_entry-HasDistinctEntries content v r h =
    (h.0, remove_list_entry-IsDistinct content v r h.1)

pub edit_rule-HasDistinctEntries :
    (timezone : String) (presets : List SchedulePreset) (e : RuleEdit) (r : GroupRule)
    → HasDistinctEntries r
    → HasDistinctEntries (edit_rule timezone presets e r)
unfolding edit_rule set_target_kind set_rule_users set_weekdays on_window_time_change
edit_rule-HasDistinctEntries timezone presets add_url r h =
    add_list_entry-HasDistinctEntries url false r h
edit_rule-HasDistinctEntries timezone presets add_content r h =
    add_list_entry-HasDistinctEntries content true r h
edit_rule-HasDistinctEntries timezone presets (remove_entry field v) r h =
    remove_list_entry-HasDistinctEntries field v r h
edit_rule-HasDistinctEntries timezone presets (choose_schedule choice) r h =
    subst₂ (λ us cs. IsDistinct us × IsDistinct cs)
      (sym (set_schedule_choice-entries timezone presets choice r).0)
      (sym (set_schedule_choice-entries timezone presets choice r).1) h
edit_rule-HasDistinctEntries timezone presets _ r h = h
