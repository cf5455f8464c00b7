-- ===== src/PolicyModel/Copy.antt =====
-- `copySchedule`, `copyRule`, `copyGroup` and `persistableGroup` of
-- ui/src/routes/rules/policymodel.ts: from a response to a draft, and from a draft to a body.
pub mod Clean
use gatesentry.Shared.{
  ℕ, String, Bool, true, false, Option, none, some, List, [], map, ◌==◌, if◌then◌else◌, or_else,
  truthy, trim, String_eq,
}
use gatesentry.PolicyModel.Types.{
  TimeWindow, Schedule, RuleTarget, GroupRule, PolicyGroup, ApiSchedule, ApiTarget, ApiRule,
  ApiGroup, RuleBody, GroupBody,
}

-- `list || []`, copied
abbrev pub list_or {ℓ} : {A : Type ℓ} → Option (List A) → List A
list_or none = []
list_or (some xs) = xs

-- `!!flag`
abbrev pub flag_of : Option Bool → Bool
flag_of none = false
flag_of (some b) = b

-- `flag !== false`
abbrev pub not_false : Option Bool → Bool
not_false none = true
not_false (some b) = b

-- `number || 0`
abbrev pub number_or_zero : Option ℕ → ℕ
number_or_zero none = 0
number_or_zero (some n) = n

-- The field `preset`, which a schedule has only if it is no empty text.
abbrev pub kept_preset : Option String → Option String
kept_preset none = none
kept_preset (some p) = if truthy p then some p else none

abbrev copy_window : TimeWindow → TimeWindow
copy_window w = record { start = w.start; end = w.end }

unfoldable pub copy_some_schedule : ApiSchedule → Schedule
copy_some_schedule s = record {
  timezone = or_else s.timezone "UTC";
  weekdays = list_or s.weekdays;
  windows = map copy_window (list_or s.windows);
  preset = kept_preset s.preset;
}

unfoldable pub copy_schedule : Option ApiSchedule → Option Schedule
copy_schedule none = none
copy_schedule (some s) = some (copy_some_schedule s)

-- `action === "allow" ? "allow" : "block"`
abbrev pub copy_action : Option String → String
copy_action none = "block"
copy_action (some a) = if a == "allow" then "allow" else "block"

abbrev pub copy_target : Option ApiTarget → RuleTarget
copy_target none = record { all_traffic = false; domains = []; categories = [] }
copy_target (some t) = record {
  all_traffic = flag_of t.all_traffic;
  domains = list_or t.domains;
  categories = list_or t.categories;
}

unfoldable pub copy_rule : ApiRule → GroupRule
unfolding copy_schedule copy_some_schedule
copy_rule r = record {
  id = or_else r.id "";
  name = or_else r.name "";
  enabled = not_false r.enabled;
  action = copy_action r.action;
  target = copy_target r.target;
  url_regexes = list_or r.url_regexes;
  blocked_content_types = list_or r.blocked_content_types;
  schedule = copy_schedule r.schedule;
  users = list_or r.users;
  domain_draft = "";
  url_draft = "";
  content_type_draft = "";
}

unfoldable pub copy_group : ApiGroup → PolicyGroup
copy_group g = record {
  id = or_else g.id "";
  name = or_else g.name "";
  description = or_else g.description "";
  blocked_categories = list_or g.blocked_categories;
  blocked_domains = list_or g.blocked_domains;
  allowed_domains = list_or g.allowed_domains;
  rules = map copy_rule (list_or g.rules);
  safe_search = flag_of g.safe_search;
  users = list_or g.users;
  priority = number_or_zero g.priority;
}

unfoldable pub persistable_rule : GroupRule → RuleBody
persistable_rule r = record {
  id = r.id;
  name = trim r.name;
  enabled = r.enabled;
  action = r.action;
  target = r.target;
  url_regexes = r.url_regexes;
  blocked_content_types = r.blocked_content_types;
  schedule = r.schedule;
  users = r.users;
}

unfoldable pub persistable_group : PolicyGroup → GroupBody
persistable_group d = record {
  id = d.id;
  name = trim d.name;
  description = d.description;
  blocked_categories = d.blocked_categories;
  blocked_domains = d.blocked_domains;
  allowed_domains = d.allowed_domains;
  safe_search = d.safe_search;
  users = d.users;
  priority = d.priority;
  rules = map persistable_rule d.rules;
}
