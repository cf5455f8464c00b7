-- ===== src/PolicyPage/Drafts/Opened.antt =====
-- Opening the editor on a policy of the page.
use gatesentry.Shared.{
  String, true, Option, none, some, List, [], ◌∷◌, map, ◌≡◌, refl, ◌⊎◌, inl, inr, ap, ap₂, or_else,
  truthy, All,
}
use gatesentry.PolicyModel.Types.{TimeWindow, Schedule, GroupRule, PolicyGroup}
use gatesentry.PolicyModel.Copy.{
  copy_some_schedule, copy_schedule, copy_action, copy_rule, copy_group,
}
use gatesentry.PolicyModel.Copy.Clean.{IsCleanSchedule?, IsCleanRule, IsCleanGroup}
use gatesentry.PolicyPage.Drafts.{Editor, all_schedule_fields, all_rule_fields, begin_edit}

-- A rule and a policy without the texts that were typed but not added.
abbrev pub untyped_rule : GroupRule → GroupRule
untyped_rule r = record r { domain_draft = ""; url_draft = ""; content_type_draft = "" }

abbrev pub untyped_group : PolicyGroup → PolicyGroup
untyped_group g = record g { rules = map untyped_rule g.rules }

or_else-some_empty : (s : String) → or_else (some s) "" ≡ s
or_else-some_empty String.[] = refl
or_else-some_empty (String.◌∷◌ c s) = refl

or_else-some : (s d : String) → truthy s ≡ true → or_else (some s) d ≡ s
or_else-some String.[] d h = cc
or_else-some (String.◌∷◌ c s) d h = refl

map_id : (ws : List TimeWindow) → map (λ w. record { start = w.start; end = w.end }) ws ≡ ws
map_id [] = refl
map_id (w ∷ ws) = ap (w ∷◌) (map_id ws)

copy_schedule-all_fields :
    (s : Option Schedule) → IsCleanSchedule? s → copy_schedule (all_schedule_fields s) ≡ s
unfolding copy_schedule copy_some_schedule
copy_schedule-all_fields none h = refl
copy_schedule-all_fields (some s) h =
    rw (or_else-some s.timezone "UTC" h.zoned, map_id s.windows, h.preset_named)

copy_action_of_decides : (a : String) → (a ≡ "allow") ⊎ (a ≡ "block") → copy_action (some a) ≡ a
copy_action_of_decides a (inl e) = rw e
copy_action_of_decides a (inr e) = rw e

copy_rule-all_fields :
    (r : GroupRule) → IsCleanRule r → copy_rule (all_rule_fields r) ≡ untyped_rule r
unfolding copy_rule
copy_rule-all_fields r h = rw (
  or_else-some_empty r.id,
  or_else-some_empty r.name,
  copy_action_of_decides r.action h.decides,
  copy_schedule-all_fields r.schedule h.timed,
)

copy_rules-all_fields :
    (rs : List GroupRule)
    → All IsCleanRule rs
    → map copy_rule (map all_rule_fields rs) ≡ map untyped_rule rs
copy_rules-all_fields [] h = refl
copy_rules-all_fields (r ∷ rs) h =
    ap₂ ◌∷◌ (copy_rule-all_fields r h.0) (copy_rules-all_fields rs h.1)

-- If every rule of a policy of the page blocks or allows and every schedule has a time zone and no nameless
-- preset, then the editor opens on a copy of the policy that has all its fields and rules in their order; only
-- the texts that were typed but not added are empty.
pub begin_edit-untyped :
    (g : PolicyGroup) (p : Editor) → IsCleanGroup g → (begin_edit g p).draft ≡ untyped_group g
unfolding begin_edit copy_group
begin_edit-untyped g p h = rw (
  or_else-some_empty g.id,
  or_else-some_empty g.name,
  or_else-some_empty g.description,
  copy_rules-all_fields g.rules h,
)
