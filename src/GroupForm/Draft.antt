-- ===== src/GroupForm/Draft.antt =====
-- The handlers of the whole draft in ui/src/routes/rules/groupform.svelte, and the form as a
-- machine over its events. `$: bedtimeIndex` and `$: bedtime` are computed from the draft when an
-- event arrives. `none` is a TypeError that the handler throws before it changes anything.
pub mod Order
pub mod Bedtime
pub mod Invariant
pub mod Edits
pub mod Ready
pub mod Rejected
use gatesentry.Shared.{
  ℕ, zero, suc, ◌+◌, String, Bool, true, false, Option, none, some, List, [], ◌∷◌, ◌++◌, map, ◌==◌,
  ltb, if◌then◌else◌, length, get_elem?, set, erase_idx, find, String_eq, option_map,
}
use gatesentry.PolicyModel.Types.{
  TimeWindow, Schedule, SchedulePreset, GroupRule, PolicyGroup, empty_rule, default_group_id,
}
use gatesentry.PolicyModel.Labels.{sort_days}
use gatesentry.PolicyModel.Summary.{is_bedtime_rule, bedtime_rule}
use gatesentry.GroupForm.Rule.{
  Action, action_text, ListField, url, content, WindowKey, set_window_key, set_target_kind,
  add_list_entry, remove_list_entry, set_rule_users, set_weekdays, set_schedule_choice,
  on_window_time_change,
}

-- `array.findIndex(test)`, where `none` stands for -1
abbrev pub find_index : (GroupRule → Bool) → List GroupRule → Option ℕ
find_index p [] = none
find_index p (r ∷ rs) =
    let rest = option_map suc (find_index p rs) in if p r then some zero else rest

-- `draft.rules.filter((_, position) => position !== index)`
unfoldable pub remove_rule : ℕ → List GroupRule → List GroupRule
remove_rule index rules = erase_idx rules index

unfoldable pub add_rule : List GroupRule → List GroupRule
add_rule rules = rules ++ empty_rule ∷ []

pub data Direction : Type 0 where
  up down : Direction

-- `index + offset`, or `none` where that is below 0
abbrev pub target_index : Direction → ℕ → Option ℕ
target_index up zero = none
target_index up (suc i) = some i
target_index down i = some (suc i)

abbrev write_pair : List GroupRule → ℕ → ℕ → Option GroupRule → Option GroupRule → List GroupRule
write_pair rules i j (some a) (some b) = set (set rules i b) j a
write_pair rules i j _ _ = rules

-- `[next[i], next[j]] = [next[j], next[i]]`, for two positions of the list
unfoldable pub swap_rules : ℕ → ℕ → List GroupRule → List GroupRule
swap_rules i j rules = write_pair rules i j (get_elem? rules i) (get_elem? rules j)

abbrev move_to : ℕ → Option ℕ → List GroupRule → List GroupRule
move_to index none rules = rules
move_to index (some target) rules =
    if ltb target (length rules) then swap_rules index target rules else rules

unfoldable pub move_rule : ℕ → Direction → List GroupRule → List GroupRule
move_rule index d rules = move_to index (target_index d index) rules

-- A change of the rule at a position.
abbrev pub update_rule : ℕ → (GroupRule → GroupRule) → List GroupRule → List GroupRule
update_rule i f [] = []
update_rule zero f (r ∷ rs) = f r ∷ rs
update_rule (suc i) f (r ∷ rs) = r ∷ update_rule i f rs

switch_on : String → List SchedulePreset → Option ℕ → List GroupRule → List GroupRule
switch_on timezone presets none rules =
    bedtime_rule timezone (find (λ p. p.id == "bedtime") presets) ∷ rules
switch_on timezone presets (some i) rules = rules

switch_off : Option ℕ → List GroupRule → List GroupRule
switch_off none rules = rules
switch_off (some i) rules = remove_rule i rules

-- `setBedtime`, over the form's time zone and presets
unfoldable pub set_bedtime : String → List SchedulePreset → Bool → List GroupRule → List GroupRule
unfolding switch_on switch_off remove_rule
set_bedtime timezone presets on rules =
    let bedtime = find_index is_bedtime_rule rules in
    if on then switch_on timezone presets bedtime rules else switch_off bedtime rules

-- `windows[0][key] = value`, which throws where there is no window
write_window : WindowKey → String → Schedule → Option Schedule
write_window key v s = elim s.windows [
  | [] ↦ none
  | w ∷ ws ↦ some (record s { windows = set_window_key key v w ∷ ws; preset = none })
]

unfoldable pub write_bedtime : WindowKey → String → GroupRule → Option GroupRule
unfolding write_window
write_bedtime key v r = elim r.schedule [
  | none ↦ some r
  | some s ↦ option_map (λ s'. record r { schedule = some s' }) (write_window key v s)
]

-- `onBedtimeTime`: the first bedtime rule is the one that the row shows.
unfoldable pub on_bedtime_time : WindowKey → String → List GroupRule → Option (List GroupRule)
unfolding write_bedtime
on_bedtime_time key v [] = some []
on_bedtime_time key v (r ∷ rs) =
    let here = option_map (λ r'. r' ∷ rs) (write_bedtime key v r) in
    let later = option_map (λ rs'. r ∷ rs') (on_bedtime_time key v rs) in
    if is_bedtime_rule r then here else later

abbrev pub bedtime_days : List ℕ → Option Schedule → Option Schedule
bedtime_days selected none = none
bedtime_days selected (some s) = some (record s { weekdays = sort_days selected; preset = none })

-- `onBedtimeDays`
unfoldable pub on_bedtime_days : List ℕ → List GroupRule → List GroupRule
on_bedtime_days selected [] = []
on_bedtime_days selected (r ∷ rs) =
    let later = r ∷ on_bedtime_days selected rs in
    if is_bedtime_rule r
    then record r { schedule = bedtime_days selected r.schedule } ∷ rs
    else later

-- What the controls of one rule do.
pub data RuleEdit : Type 0 where
  rename : String → RuleEdit
  enable : Bool → RuleEdit
  choose_action : Action → RuleEdit
  choose_target : Bool → RuleEdit
  choose_categories : List String → RuleEdit
  choose_domains : List String → RuleEdit
  type_url : String → RuleEdit
  type_content : String → RuleEdit
  add_url add_content : RuleEdit
  remove_entry : ListField → String → RuleEdit
  choose_users : List String → RuleEdit
  choose_days : List ℕ → RuleEdit
  choose_schedule : String → RuleEdit
  choose_time : WindowKey → String → RuleEdit

-- Entries for response types are the ones that are put in lower case.
unfoldable pub edit_rule : String → List SchedulePreset → RuleEdit → GroupRule → GroupRule
edit_rule timezone presets (rename v) r = record r { name = v }
edit_rule timezone presets (enable b) r = record r { enabled = b }
edit_rule timezone presets (choose_action a) r = record r { action = action_text a }
edit_rule timezone presets (choose_target everything) r = set_target_kind everything r
edit_rule timezone presets (choose_categories cs) r = record r {
  target = record r.target { categories = cs };
}
edit_rule timezone presets (choose_domains ds) r = record r {
  target = record r.target { domains = ds };
}
edit_rule timezone presets (type_url v) r = record r { url_draft = v }
edit_rule timezone presets (type_content v) r = record r { content_type_draft = v }
edit_rule timezone presets add_url r = add_list_entry url false r
edit_rule timezone presets add_content r = add_list_entry content true r
edit_rule timezone presets (remove_entry field v) r = remove_list_entry field v r
edit_rule timezone presets (choose_users us) r = set_rule_users us r
edit_rule timezone presets (choose_days days) r = set_weekdays days r
edit_rule timezone presets (choose_schedule choice) r =
    set_schedule_choice timezone presets choice r
edit_rule timezone presets (choose_time key v) r = on_window_time_change key v r

pub data Event : Type 0 where
  rename_policy describe : String → Event
  block_categories block_domains allow_domains : List String → Event
  toggle_safe_search : Bool → Event
  choose_group_users : List String → Event
  toggle_bedtime : Bool → Event
  bedtime_time : WindowKey → String → Event
  choose_bedtime_days : List ℕ → Event
  new_rule : Event
  drop_rule : ℕ → Event
  shift_rule : ℕ → Direction → Event
  change_rule : ℕ → RuleEdit → Event

-- One event of the form.
unfoldable pub handle : String → List SchedulePreset → Event → PolicyGroup → Option PolicyGroup
handle timezone presets (rename_policy v) d = some (record d { name = v })
handle timezone presets (describe v) d = some (record d { description = v })
handle timezone presets (block_categories cs) d = some (record d { blocked_categories = cs })
handle timezone presets (block_domains ds) d = some (record d { blocked_domains = ds })
handle timezone presets (allow_domains ds) d = some (record d { allowed_domains = ds })
handle timezone presets (toggle_safe_search b) d = some (record d { safe_search = b })
handle timezone presets (choose_group_users us) d = some (record d { users = us })
handle timezone presets (toggle_bedtime on) d =
    some (record d { rules = set_bedtime timezone presets on d.rules })
handle timezone presets (bedtime_time key v) d =
    option_map (λ rules. record d { rules = rules }) (on_bedtime_time key v d.rules)
handle timezone presets (choose_bedtime_days days) d =
    some (record d { rules = on_bedtime_days days d.rules })
handle timezone presets new_rule d = some (record d { rules = add_rule d.rules })
handle timezone presets (drop_rule i) d = some (record d { rules = remove_rule i d.rules })
handle timezone presets (shift_rule i dir) d = some (record d { rules = move_rule i dir d.rules })
handle timezone presets (change_rule i e) d =
    some (record d { rules = update_rule i (edit_rule timezone presets e) d.rules })

-- A throw leaves the draft as it was; the form goes on with the next event.
abbrev pub after : PolicyGroup → Option PolicyGroup → PolicyGroup
after d none = d
after d (some d') = d'

unfoldable pub edit : String → List SchedulePreset → List Event → PolicyGroup → PolicyGroup
edit timezone presets [] d = d
edit timezone presets (e ∷ es) d = edit timezone presets es (after d (handle timezone presets e d))
