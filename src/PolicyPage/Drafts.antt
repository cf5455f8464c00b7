-- ===== src/PolicyPage/Drafts.antt =====
-- The policies themselves on ui/src/routes/rules/policygroups.svelte: what opens, saves and deletes
-- one. The server's answer to a request is a parameter. A handler gives the page after its last
-- `await`, where nothing else has changed the page in between.
pub mod Ids
pub mod Opened
use gatesentry.Shared.{
  String, Bool, true, false, Option, none, some, List, [], ◌∷◌, ◌++◌, map, ◌⊎◌, inl, inr, ◌==◌, not,
  if◌then◌else◌, filter, truthy, trim, or_else, ◌<>◌, String_eq,
}
use gatesentry.PolicyModel.Types.{
  Schedule, GroupRule, PolicyGroup, ApiSchedule, ApiRule, ApiGroup, GroupBody, empty_group,
}
use gatesentry.PolicyModel.Copy.{copy_group, persistable_group}

-- The variables of the page that these handlers touch.
pub record Editor : Type 0 where
  pub groups : List PolicyGroup
  pub editing_group_id : String
  pub draft : PolicyGroup
  pub deleting_group : Option PolicyGroup
  pub saving : Bool
  pub error : String
  pub success : String

unfoldable pub open_create : Editor → Editor
open_create p = record p { editing_group_id = "choose"; draft = empty_group }

unfoldable pub begin_create : Editor → Editor
begin_create p = record p { editing_group_id = "new"; draft = empty_group }

-- A policy of the page as the argument of `copyGroup`: every field is there.
abbrev pub all_schedule_fields : Option Schedule → Option ApiSchedule
all_schedule_fields none = none
all_schedule_fields (some s) = some (record {
  timezone = some s.timezone;
  weekdays = some s.weekdays;
  windows = some s.windows;
  preset = s.preset;
})

abbrev pub all_rule_fields : GroupRule → ApiRule
all_rule_fields r = record {
  id = some r.id;
  name = some r.name;
  enabled = some r.enabled;
  action = some r.action;
  target = some (record {
    all_traffic = some r.target.all_traffic;
    domains = some r.target.domains;
    categories = some r.target.categories;
  });
  url_regexes = some r.url_regexes;
  blocked_content_types = some r.blocked_content_types;
  schedule = all_schedule_fields r.schedule;
  users = some r.users;
}

abbrev pub all_fields : PolicyGroup → ApiGroup
all_fields g = record {
  id = some g.id;
  name = some g.name;
  description = some g.description;
  blocked_categories = some g.blocked_categories;
  blocked_domains = some g.blocked_domains;
  allowed_domains = some g.allowed_domains;
  rules = some (map all_rule_fields g.rules);
  safe_search = some g.safe_search;
  users = some g.users;
  priority = some g.priority;
}

unfoldable pub begin_edit : PolicyGroup → Editor → Editor
begin_edit g p = record p { editing_group_id = g.id; draft = copy_group (all_fields g) }

unfoldable pub cancel_edit : Editor → Editor
cancel_edit p = record p { editing_group_id = ""; draft = empty_group }

-- `groups.map((group) => (group.id === saved.id ? saved : group))`
abbrev pub replace_group : PolicyGroup → List PolicyGroup → List PolicyGroup
replace_group saved = map (λ g. if g.id == saved.id then saved else g)

-- The rest of `saveGroup` after the response.
abbrev pub store_saved : Bool → ApiGroup ⊎ String → Editor → Editor
store_saved is_new (inl g) p =
    let saved = copy_group g in
    cancel_edit (record p {
      groups = if is_new then p.groups ++ saved ∷ [] else replace_group saved p.groups;
      success = "Policy saved. It applies to new DNS lookups within a minute.";
      error = "";
      saving = false;
    })
store_saved is_new (inr message) p = record p { error = message; success = ""; saving = false }

-- `request` answers a POST of a new policy, or a PUT of the policy with an id.
unfoldable pub save_group : (Bool → String → GroupBody → ApiGroup ⊎ String) → Editor → Editor
save_group request p =
    let is_new = p.editing_group_id == "new" in
    if not (truthy (trim p.draft.name))
    then record p { error = "A policy needs a name." }
    else store_saved is_new (request is_new p.editing_group_id (persistable_group p.draft)) p

unfoldable pub open_delete_group : PolicyGroup → Editor → Editor
open_delete_group g p = record p { deleting_group = some g }

unfoldable pub close_delete_group : Editor → Editor
close_delete_group p = if not p.saving then record p { deleting_group = none } else p

-- The page once the policy is deleted, and `reloadAssignments` went well or failed.
abbrev after_delete : PolicyGroup → Option String → Editor → Editor
after_delete g none p = record p {
  groups = filter (λ candidate. not (candidate.id == g.id)) p.groups;
  deleting_group = none;
  error = "";
  success = "Policy deleted; its devices now use the default policy.";
  saving = false;
}
after_delete g (some message) p = record p {
  groups = filter (λ candidate. not (candidate.id == g.id)) p.groups;
  deleting_group = none;
  error = message;
  saving = false;
}

abbrev deleted : PolicyGroup → Option String → Option String → Editor → Editor
deleted g none reload p = after_delete g reload p
deleted g (some message) reload p = record p { error = message; saving = false }

abbrev delete_chosen :
    (String → Option String) → Option String → Option PolicyGroup → Editor → Editor
delete_chosen request reload none p = p
delete_chosen request reload (some g) p = deleted g (request g.id) reload p

-- `request` gives the error of a DELETE, if there is one, and `reload` that of the reload.
unfoldable pub confirm_delete_group : (String → Option String) → Option String → Editor → Editor
confirm_delete_group request reload p = delete_chosen request reload p.deleting_group p

abbrev applied : String → ApiGroup ⊎ String → Editor → Editor
applied name (inl g) p = record p {
  groups = p.groups ++ copy_group g ∷ [];
  editing_group_id = or_else g.id "";
  draft = copy_group g;
  error = "";
  success = name <> " was added. Review it, then save any changes.";
  saving = false;
}
applied name (inr message) p = record p { error = message; success = ""; saving = false }

-- `applyTemplate`, of the template with a name and an id
unfoldable pub apply_template : (String → ApiGroup ⊎ String) → String → String → Editor → Editor
apply_template request name id p = applied name (request id) p
