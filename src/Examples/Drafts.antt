-- ===== src/Examples/Drafts.antt =====
-- Policies of ui/src/routes/rules: their drafts, bodies, labels and summaries.
use gatesentry.PolicyPage.Drafts.{Editor, begin_edit}
use gatesentry.PolicyPage.Drafts.Opened.{untyped_group, begin_edit-untyped}
use gatesentry.Shared.{
  ℕ, String, true, false, none, some, List, [], ◌∷◌, ◌≡◌, refl, inr, join, decimal,
}
use gatesentry.PolicyModel.Types.{
  TimeWindow, Schedule, GroupRule, PolicyGroup, ApiRule, ApiGroup, empty_rule, empty_group,
}
use gatesentry.PolicyModel.Copy.Clean.{IsCleanGroup}
use gatesentry.PolicyModel.Labels.{weekday_label, sort_days, day_names, rule_sentence, needs_proxy}
use gatesentry.PolicyModel.Summary.{
  is_bedtime_rule, has_advanced_settings, policy_parts, policy_summary,
}

abbrev pub night : TimeWindow
night = record { start = "21:00"; end = "07:00" }

abbrev pub school_nights : Schedule
school_nights = record {
  timezone = "Europe/Berlin";
  weekdays = 4 ∷ 0 ∷ 1 ∷ [];
  windows = night ∷ [];
  preset = none;
}

abbrev pub bedtime : GroupRule
bedtime = record empty_rule {
  name = " Bedtime ";
  target = record { all_traffic = true; domains = []; categories = [] };
  schedule = some school_nights;
}

abbrev pub videos : GroupRule
videos = record empty_rule {
  name = "Videos";
  target = record { all_traffic = false; domains = "video.example" ∷ []; categories = [] };
  url_regexes = "/watch" ∷ [];
  url_draft = " /shorts ";
}

abbrev pub kids : PolicyGroup
kids = record empty_group {
  id = "kids";
  name = "Kids ";
  blocked_categories = "gambling" ∷ [];
  rules = bedtime ∷ videos ∷ [];
}

abbrev upper_id : String → String
upper_id s = s

pub kids-IsClean : IsCleanGroup kids
kids-IsClean = (
  record { decides = inr refl; timed = record { zoned = refl; preset_named = refl } },
  (record { decides = inr refl; timed = tt }, tt),
)

-- The summary and the sentence of a small policy.
label_tests :
    (policy_summary kids upper_id
      ≡ "Blocks gambling · Bedtime 21:00-07:00 Sun, Mon, Thu · 1 custom rule")
    × (rule_sentence videos upper_id ≡ "Block video.example when the URL matches /watch")
    × (rule_sentence bedtime upper_id ≡ "Block all traffic, 21:00-07:00 Sun, Mon, Thu")
    × (needs_proxy videos ≡ true)
    × (has_advanced_settings kids ≡ true)
unfolding policy_summary rule_sentence needs_proxy has_advanced_settings policy_parts join
    is_bedtime_rule weekday_label day_names sort_days decimal
label_tests = (refl, refl, refl, refl, refl)

abbrev nonsense_rule : ApiRule
nonsense_rule = record {
  id = none;
  name = none;
  enabled = none;
  action = some "deny";
  target = none;
  url_regexes = none;
  blocked_content_types = none;
  schedule =
      some (record { timezone = some ""; weekdays = none; windows = none; preset = some "" });
  users = none;
}

abbrev pub nonsense : ApiGroup
nonsense = record {
  id = some "kids";
  name = none;
  description = none;
  blocked_categories = none;
  blocked_domains = none;
  allowed_domains = none;
  rules = some (nonsense_rule ∷ []);
  safe_search = none;
  users = none;
  priority = none;
}

abbrev friday : List ℕ
friday = 5 ∷ []

abbrev editor : Editor
editor = record {
  groups = kids ∷ [];
  editing_group_id = "kids";
  draft = kids;
  deleting_group = none;
  saving = false;
  error = "";
  success = "";
}

begin_edit-untyped_example : (begin_edit kids editor).draft ≡ untyped_group kids
begin_edit-untyped_example = begin_edit-untyped kids editor kids-IsClean
