-- ===== src/PolicyModel/Copy/Clean.antt =====
-- What every draft that `copyGroup` makes satisfies.
use gatesentry.Shared.{
  String, true, Option, none, some, List, [], ◌∷◌, map, ◌≡◌, refl, ◌⊎◌, inr, or_else, truthy, All,
  arith,
}
use gatesentry.PolicyModel.Types.{Schedule, GroupRule, PolicyGroup, ApiSchedule, ApiRule, ApiGroup}
use gatesentry.PolicyModel.Copy.{
  list_or, kept_preset, copy_some_schedule, copy_schedule, copy_action, copy_rule, copy_group,
}

-- The schedule has a time zone, and its preset, if there is one, has a name.
pub record IsCleanSchedule (s : Schedule) : Type 0 where
  pub zoned : truthy s.timezone ≡ true
  pub preset_named : kept_preset s.preset ≡ s.preset

abbrev pub IsCleanSchedule? : Option Schedule → Type 0
IsCleanSchedule? none = Unit
IsCleanSchedule? (some s) = IsCleanSchedule s

-- The rule blocks or allows, and its schedule is clean.
pub record IsCleanRule (r : GroupRule) : Type 0 where
  pub decides : (r.action ≡ "allow") ⊎ (r.action ≡ "block")
  pub timed : IsCleanSchedule? r.schedule

abbrev pub IsCleanGroup : PolicyGroup → Type 0
IsCleanGroup d = All IsCleanRule d.rules

truthy-or_else : (o : Option String) (d : String) → truthy d ≡ true → truthy (or_else o d) ≡ true
truthy-or_else none d h = h
truthy-or_else (some String.[]) d h = h
truthy-or_else (some (String.◌∷◌ c s)) d h = refl

kept_preset_idempotent : (o : Option String) → kept_preset (kept_preset o) ≡ kept_preset o
kept_preset_idempotent none = refl
kept_preset_idempotent (some String.[]) = refl
kept_preset_idempotent (some (String.◌∷◌ c s)) = refl

copy_action_decides : (a : Option String) → (copy_action a ≡ "allow") ⊎ (copy_action a ≡ "block")
copy_action_decides none = inr refl
copy_action_decides (some a) = ground arith

copy_schedule-IsCleanSchedule : (s : Option ApiSchedule) → IsCleanSchedule? (copy_schedule s)
unfolding copy_schedule copy_some_schedule
copy_schedule-IsCleanSchedule none = tt
copy_schedule-IsCleanSchedule (some s) = record {
  zoned = truthy-or_else s.timezone "UTC" refl;
  preset_named = kept_preset_idempotent s.preset;
}

pub copy_rule-IsCleanRule : (r : ApiRule) → IsCleanRule (copy_rule r)
unfolding copy_rule
copy_rule-IsCleanRule r = record {
  decides = copy_action_decides r.action;
  timed = copy_schedule-IsCleanSchedule r.schedule;
}

copy_rules-IsCleanRule : (rs : List ApiRule) → All IsCleanRule (map copy_rule rs)
copy_rules-IsCleanRule [] = tt
copy_rules-IsCleanRule (r ∷ rs) = (copy_rule-IsCleanRule r, copy_rules-IsCleanRule rs)

-- Whatever fields a response leaves out or fills with nonsense, the draft made of it is clean:
-- each rule blocks or allows, and each schedule has a time zone and no nameless preset.
pub copy_group-IsCleanGroup : (g : ApiGroup) → IsCleanGroup (copy_group g)
unfolding copy_group
copy_group-IsCleanGroup g = copy_rules-IsCleanRule (list_or g.rules)
