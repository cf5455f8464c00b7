-- ===== src/PolicyModel/Labels.antt =====
-- The labels of ui/src/routes/rules/policymodel.ts: one phrase for a schedule, a target, a rule.
pub mod Days
use gatesentry.Shared.{
  ℕ, ◌-◌, String, Bool, true, false, Option, none, some, List, [], ◌∷◌, ◌++◌, map, ◌==◌, ◌||◌, not,
  ltb, leb, if◌then◌else◌, length, get_elem?, non_empty, take, ◌<>◌, truthy, join, decimal,
  String_eq,
}
use gatesentry.PolicyModel.Types.{TimeWindow, Schedule, RuleTarget, GroupRule, weekday_names}

insert_day : ℕ → List ℕ → List ℕ
insert_day a [] = a ∷ []
insert_day a (b ∷ bs) = if leb a b then a ∷ b ∷ bs else b ∷ insert_day a bs

-- `[...days].sort((a, b) => a - b)`
unfoldable pub sort_days : List ℕ → List ℕ
unfolding insert_day
sort_days [] = []
sort_days (a ∷ rest) = insert_day a (sort_days rest)

-- `days.map((day) => WEEKDAY_NAMES[day]).filter(Boolean)`: a number that names no day is dropped.
unfoldable pub day_names : List ℕ → List String
day_names [] = []
day_names (d ∷ ds) = elim (get_elem? weekday_names d) [
  | none ↦ day_names ds
  | some name ↦ name ∷ day_names ds
]

-- A missing list has the same label as an empty one.
unfoldable pub weekday_label : List ℕ → String
weekday_label days =
    if not (non_empty days) || leb 7 (length days)
    then ""
    else join ", " (day_names (sort_days days))

abbrev window_text : TimeWindow → String
window_text w = w.start <> "-" <> w.end

unfoldable pub some_schedule_label : Schedule → String
some_schedule_label s =
    let windows = join ", " (map window_text s.windows) in
    let days = weekday_label s.weekdays in
    windows <> (if truthy days then " " <> days else " every day")

unfoldable pub schedule_label : Option Schedule → String
unfolding some_schedule_label
schedule_label none = "Always"
schedule_label (some s) = some_schedule_label s

-- `n` names, or the first three and how many more there are.
abbrev pub first_three : List String → String
first_three names =
    if ltb 3 (length names)
    then join ", " (take 3 names) <> " and " <> decimal (length names - 3) <> " more"
    else join ", " names

unfoldable pub target_label : RuleTarget → (String → String) → String
target_label t category_name =
    let parts = map category_name t.categories ++ t.domains in
    if t.all_traffic
    then "all traffic"
    else if not (non_empty parts)
    then "nothing yet"
    else first_three parts

url_phrase : GroupRule → String
url_phrase r =
    if non_empty r.url_regexes then " when the URL matches " <> join " or " r.url_regexes else ""

content_phrase : GroupRule → String
content_phrase r =
    if non_empty r.blocked_content_types
    then (if non_empty r.url_regexes then " or the response is " else " when the response is ")
      <> join ", " r.blocked_content_types
    else ""

schedule_phrase : Option Schedule → String
unfolding schedule_label
schedule_phrase none = ""
schedule_phrase (some s) = ", " <> schedule_label (some s)

unfoldable pub rule_sentence : GroupRule → (String → String) → String
unfolding url_phrase content_phrase schedule_phrase target_label
rule_sentence r category_name =
    (if r.action == "allow" then "Allow " else "Block ")
    <> target_label r.target category_name
    <> url_phrase r
    <> content_phrase r
    <> schedule_phrase r.schedule
    <> (if non_empty r.users then ", for " <> join ", " r.users else "")

unfoldable pub needs_proxy : GroupRule → Bool
needs_proxy r = non_empty r.url_regexes || non_empty r.blocked_content_types || non_empty r.users
