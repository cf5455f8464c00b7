-- ===== src/GroupForm/Rule.antt =====
-- The handlers of one rule of the draft in ui/src/routes/rules/groupform.svelte. A handler mutates
-- the rule object and then reassigns `draft.rules` (`touchRules`); here it returns the new rule.
pub mod Entries
pub mod Choice
use gatesentry.Shared.{
  ℕ, String, Bool, true, false, Option, none, some, List, [], ◌∷◌, ◌++◌, map, ◌==◌, ◌||◌, not,
  if◌then◌else◌, filter, find, includes, non_empty, truthy, trim, to_lower, or_else, String_eq,
}
use gatesentry.PolicyModel.Types.{
  TimeWindow, Schedule, SchedulePreset, RuleTarget, GroupRule, schedule_preset_custom,
}
use gatesentry.PolicyModel.Labels.{sort_days}

-- The values of the `Action` select.
pub data Action : Type 0 where
  block allow : Action

abbrev pub action_text : Action → String
action_text block = "block"
action_text allow = "allow"

-- The list that an entry belongs to: `url_regexes` or `blocked_content_types`.
pub data ListField : Type 0 where
  url content : ListField

-- The two ends of a time window: `from` and `to`.
pub data WindowKey : Type 0 where
  start end : WindowKey

pub set_window_key : WindowKey → String → TimeWindow → TimeWindow
set_window_key start v w = record w { start = v }
set_window_key end v w = record w { end = v }

-- `URL and response-type conditions narrow a block`: the fields are shown for a block rule only.
pub conditions_allowed : GroupRule → Bool
conditions_allowed r = r.action == "block"

unfoldable pub set_target_kind : Bool → GroupRule → GroupRule
set_target_kind everything r = record r { target = record r.target { all_traffic = everything } }

abbrev pub entries : ListField → GroupRule → List String
entries url r = r.url_regexes
entries content r = r.blocked_content_types

abbrev pub entry_draft : ListField → GroupRule → String
entry_draft url r = r.url_draft
entry_draft content r = r.content_type_draft

set_entries : ListField → List String → GroupRule → GroupRule
set_entries url xs r = record r { url_regexes = xs }
set_entries content xs r = record r { blocked_content_types = xs }

clear_draft : ListField → GroupRule → GroupRule
clear_draft url r = record r { url_draft = "" }
clear_draft content r = record r { content_type_draft = "" }

-- The text that is added: trimmed, and in lower case where `lower` is set.
unfoldable pub entry_value : ListField → Bool → GroupRule → String
entry_value field lower r =
    let value = trim (entry_draft field r) in if lower then to_lower value else value

unfoldable pub add_list_entry : ListField → Bool → GroupRule → GroupRule
unfolding set_entries clear_draft
add_list_entry field lower r =
    let value = entry_value field lower r in
    if not (truthy value) || includes (entries field r) value
    then r
    else clear_draft field (set_entries field (entries field r ++ value ∷ []) r)

unfoldable pub remove_list_entry : ListField → String → GroupRule → GroupRule
unfolding set_entries
remove_list_entry field value r =
    set_entries field (filter (λ candidate. not (candidate == value)) (entries field r)) r

unfoldable pub set_rule_users : List String → GroupRule → GroupRule
set_rule_users selected r = record r { users = selected }

-- `selected` holds the ids of the chosen weekdays, read by `Number`.
unfoldable pub set_schedule_days : List ℕ → Option Schedule → Option Schedule
set_schedule_days selected none = none
set_schedule_days selected (some s) = some (record s { weekdays = sort_days selected })

unfoldable pub set_weekdays : List ℕ → GroupRule → GroupRule
unfolding set_schedule_days
set_weekdays selected r = record r { schedule = set_schedule_days selected r.schedule }

choice_of : Option Schedule → String
choice_of none = ""
choice_of (some s) = or_else s.preset schedule_preset_custom

unfoldable pub schedule_choice : GroupRule → String
unfolding choice_of
schedule_choice r = choice_of r.schedule

-- `schedule?.windows?.[0] || { from: "20:00", to: "07:00" }`
first_window : List TimeWindow → TimeWindow
first_window [] = record { start = "20:00"; end = "07:00" }
first_window (w ∷ ws) = w

schedule_window : Option Schedule → TimeWindow
unfolding first_window
schedule_window none = first_window []
schedule_window (some s) = first_window s.windows

schedule_days : Option Schedule → List ℕ
schedule_days none = []
schedule_days (some s) = s.weekdays

custom_schedule : String → Option Schedule → Schedule
unfolding schedule_window schedule_days
custom_schedule timezone old =
    let window = schedule_window old in
    record {
      timezone = timezone;
      weekdays = schedule_days old;
      windows = record { start = window.start; end = window.end } ∷ [];
      preset = none;
    }

preset_schedule : String → SchedulePreset → Schedule
preset_schedule timezone p = record {
  timezone = timezone;
  weekdays = p.weekdays;
  windows = map (λ w. record { start = w.start; end = w.end }) p.windows;
  preset = some p.id;
}

abbrev apply_preset : String → Option SchedulePreset → GroupRule → GroupRule
unfolding preset_schedule
apply_preset timezone none r = r
apply_preset timezone (some p) r = record r { schedule = some (preset_schedule timezone p) }

-- `setScheduleChoice`, over the form's time zone and presets
unfoldable pub set_schedule_choice : String → List SchedulePreset → String → GroupRule → GroupRule
unfolding custom_schedule preset_schedule
set_schedule_choice timezone presets choice r =
    if not (truthy choice)
    then record r { schedule = none }
    else if choice == schedule_preset_custom
    then record r { schedule = some (custom_schedule timezone r.schedule) }
    else apply_preset timezone (find (λ p. p.id == choice) presets) r

set_first_window : WindowKey → String → List TimeWindow → List TimeWindow
unfolding set_window_key
set_first_window key v [] = []
set_first_window key v (w ∷ ws) = set_window_key key v w ∷ ws

schedule_window_time : WindowKey → String → Option Schedule → Option Schedule
unfolding set_first_window
schedule_window_time key v none = none
schedule_window_time key v (some s) = some (record s { windows = set_first_window key v s.windows })

-- `onWindowTimeChange`: nothing happens without a schedule, or in one that has no window.
unfoldable pub on_window_time_change : WindowKey → String → GroupRule → GroupRule
unfolding schedule_window_time
on_window_time_change key v r = record r { schedule = schedule_window_time key v r.schedule }
