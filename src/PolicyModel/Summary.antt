-- ===== src/PolicyModel/Summary.antt =====
-- The bedtime rule, the test for the advanced editor and the one-line summary of a policy:
-- `isBedtimeRule`, `bedtimeRule`, `hasAdvancedSettings` and `policySummary` of
-- ui/src/routes/rules/policymodel.ts.
pub mod Laws
use gatesentry.Shared.{
  ℕ, ◌-◌, String, Bool, true, false, Option, none, some, List, [], ◌∷◌, ◌++◌, map, ◌==◌, ◌&&◌, ◌||◌,
  not, ltb, if◌then◌else◌, length, non_empty, filter, find, ◌<>◌, join, decimal, String_eq, ℕ_eq,
}
use gatesentry.PolicyModel.Types.{
  TimeWindow, Schedule, SchedulePreset, GroupRule, PolicyGroup, empty_rule,
}
use gatesentry.PolicyModel.Labels.{first_three, schedule_label}

-- `!!value` of an object that may be null
abbrev pub is_present {ℓ} : {A : Type ℓ} → Option A → Bool
is_present none = false
is_present (some a) = true

unfoldable pub is_bedtime_rule : GroupRule → Bool
is_bedtime_rule r =
    r.action == "block"
    && r.target.all_traffic
    && is_present r.schedule
    && not (non_empty r.url_regexes)
    && not (non_empty r.blocked_content_types)
    && not (non_empty r.users)

abbrev pub default_bedtime : List TimeWindow
default_bedtime = record { start = "21:00"; end = "07:00" } ∷ []

abbrev pub copy_windows : List TimeWindow → List TimeWindow
copy_windows = map (λ w. record { start = w.start; end = w.end })

abbrev preset_days : Option SchedulePreset → List ℕ
preset_days none = []
preset_days (some p) = p.weekdays

abbrev preset_windows : Option SchedulePreset → List TimeWindow
preset_windows none = default_bedtime
preset_windows (some p) = if non_empty p.windows then copy_windows p.windows else default_bedtime

unfoldable pub bedtime_rule : String → Option SchedulePreset → GroupRule
bedtime_rule timezone preset = record empty_rule {
  name = "Bedtime";
  target = record empty_rule.target { all_traffic = true };
  schedule = some (record {
    timezone = timezone;
    weekdays = preset_days preset;
    windows = preset_windows preset;
    preset = none;
  });
}

unfoldable pub has_advanced_settings : PolicyGroup → Bool
has_advanced_settings g =
    let bedtime = filter is_bedtime_rule g.rules in
    non_empty g.users || ltb (length bedtime) (length g.rules) || ltb 1 (length bedtime)

-- `condition ? [part] : []`
abbrev part_if : Bool → String → List String
part_if b s = if b then s ∷ [] else []

-- `"s"` behind every number but one
abbrev plural : ℕ → String
plural n = if n == 1 then "" else "s"

bedtime_part : Option GroupRule → List String
bedtime_part none = []
bedtime_part (some r) = ("Bedtime " <> schedule_label r.schedule) ∷ []

-- The array `parts` at the end of `policySummary`.
unfoldable pub policy_parts : PolicyGroup → (String → String) → List String
unfolding bedtime_part
policy_parts g category_name =
    let other = length (filter (λ r. not (is_bedtime_rule r)) g.rules) in
    part_if (non_empty g.blocked_categories)
      ("Blocks " <> first_three (map category_name g.blocked_categories))
    ++ (part_if (non_empty g.blocked_domains) (
          decimal (length g.blocked_domains)
          <> " blocked site"
          <> plural (length g.blocked_domains))
        ++ (part_if (non_empty g.allowed_domains) (
              decimal (length g.allowed_domains)
              <> " always-allowed site"
              <> plural (length g.allowed_domains))
            ++ (part_if g.safe_search "Safe search"
                ++ (bedtime_part (find (λ r. r.enabled && is_bedtime_rule r) g.rules)
                    ++ part_if (ltb 0 other) (decimal other <> " custom rule" <> plural other)))))

unfoldable pub policy_summary : PolicyGroup → (String → String) → String
policy_summary g category_name =
    let parts = policy_parts g category_name in
    if non_empty parts then join " · " parts else "Blocks nothing of its own"
