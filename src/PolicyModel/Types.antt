-- ===== src/PolicyModel/Types.antt =====
-- The wire shapes, the constants and the empty drafts of ui/src/routes/rules/policymodel.ts.
-- Fields of an editable draft always hold a value. The `Api` types are the `Partial` records that
-- a response gives: every field may be missing, and `null` is a missing field.
use gatesentry.Shared.{ℕ, String, Bool, true, false, Option, none, List, [], ◌∷◌}

pub record TimeWindow : Type 0 where
  pub start : String  -- `from`
  pub end : String  -- `to`

pub record Schedule : Type 0 where
  pub timezone : String
  pub weekdays : List ℕ
  pub windows : List TimeWindow
  pub preset : Option String

pub record SchedulePreset : Type 0 where
  pub id : String
  pub name : String
  pub description : String
  pub timezone : String
  pub weekdays : List ℕ
  pub windows : List TimeWindow

pub record RuleTarget : Type 0 where
  pub all_traffic : Bool
  pub domains : List String
  pub categories : List String

pub record GroupRule : Type 0 where
  pub id : String
  pub name : String
  pub enabled : Bool
  pub action : String
  pub target : RuleTarget
  pub url_regexes : List String
  pub blocked_content_types : List String
  pub schedule : Option Schedule
  pub users : List String
  pub domain_draft : String
  pub url_draft : String
  pub content_type_draft : String

pub record PolicyGroup : Type 0 where
  pub id : String
  pub name : String
  pub description : String
  pub blocked_categories : List String
  pub blocked_domains : List String
  pub allowed_domains : List String
  pub rules : List GroupRule
  pub safe_search : Bool
  pub users : List String
  pub priority : ℕ

-- A schedule as a response gives it.
pub record ApiSchedule : Type 0 where
  pub timezone : Option String
  pub weekdays : Option (List ℕ)
  pub windows : Option (List TimeWindow)
  pub preset : Option String

pub record ApiTarget : Type 0 where
  pub all_traffic : Option Bool
  pub domains : Option (List String)
  pub categories : Option (List String)

-- `Partial<GroupRule>`
pub record ApiRule : Type 0 where
  pub id : Option String
  pub name : Option String
  pub enabled : Option Bool
  pub action : Option String
  pub target : Option ApiTarget
  pub url_regexes : Option (List String)
  pub blocked_content_types : Option (List String)
  pub schedule : Option ApiSchedule
  pub users : Option (List String)

-- `Partial<PolicyGroup>`
pub record ApiGroup : Type 0 where
  pub id : Option String
  pub name : Option String
  pub description : Option String
  pub blocked_categories : Option (List String)
  pub blocked_domains : Option (List String)
  pub allowed_domains : Option (List String)
  pub rules : Option (List ApiRule)
  pub safe_search : Option Bool
  pub users : Option (List String)
  pub priority : Option ℕ

-- The rule of a request body: the fields that `persistableGroup` names.
pub record RuleBody : Type 0 where
  pub id : String
  pub name : String
  pub enabled : Bool
  pub action : String
  pub target : RuleTarget
  pub url_regexes : List String
  pub blocked_content_types : List String
  pub schedule : Option Schedule
  pub users : List String

-- The request body of a policy.
pub record GroupBody : Type 0 where
  pub id : String
  pub name : String
  pub description : String
  pub blocked_categories : List String
  pub blocked_domains : List String
  pub allowed_domains : List String
  pub safe_search : Bool
  pub users : List String
  pub priority : ℕ
  pub rules : List RuleBody

abbrev pub default_group_id : String
default_group_id = "default"

abbrev pub weekday_names : List String
weekday_names = "Sun" ∷ "Mon" ∷ "Tue" ∷ "Wed" ∷ "Thu" ∷ "Fri" ∷ "Sat" ∷ []

abbrev pub schedule_preset_custom : String
schedule_preset_custom = "custom"

abbrev pub empty_group : PolicyGroup
empty_group = record {
  id = "";
  name = "";
  description = "";
  blocked_categories = [];
  blocked_domains = [];
  allowed_domains = [];
  rules = [];
  safe_search = false;
  users = [];
  priority = 0;
}

abbrev pub empty_rule : GroupRule
empty_rule = record {
  id = "";
  name = "";
  enabled = true;
  action = "block";
  target = record { all_traffic = false; domains = []; categories = [] };
  url_regexes = [];
  blocked_content_types = [];
  schedule = none;
  users = [];
  domain_draft = "";
  url_draft = "";
  content_type_draft = "";
}
