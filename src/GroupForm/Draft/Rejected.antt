-- ===== src/GroupForm/Draft/Rejected.antt =====
-- A draft whose body the API refuses: URL and response conditions on an allow rule
-- (application/policy/rules.go rejects the combination).
use gatesentry.Shared.{
  ℕ, zero, suc, String, true, some, List, [], ◌∷◌, ◌≡◌, refl, arith, All, map, non_empty, get_elem?,
  ◌||◌,
}
use gatesentry.PolicyModel.Types.{SchedulePreset, GroupRule, PolicyGroup, RuleBody}
use gatesentry.PolicyModel.Copy.{persistable_rule, persistable_group}
use gatesentry.GroupForm.Rule.{allow}
use gatesentry.GroupForm.Draft.{choose_action, edit_rule, update_rule, change_rule, handle, after}

-- An allow rule has no URL pattern and no response type.
abbrev pub IsAcceptable : RuleBody → Type 0
IsAcceptable b = b.action ≡ "allow" → (b.url_regexes ≡ []) × (b.blocked_content_types ≡ [])

rejected_rule :
    (timezone : String) (presets : List SchedulePreset) (r : GroupRule)
    → (non_empty r.url_regexes || non_empty r.blocked_content_types) ≡ true
    → ¬ IsAcceptable (persistable_rule (edit_rule timezone presets (choose_action allow) r))
unfolding edit_rule persistable_rule
rejected_rule timezone presets r conditions ok = let both = ok refl in ground arith

rejected_rules :
    (timezone : String) (presets : List SchedulePreset) (i : ℕ) (rs : List GroupRule)
    (r : GroupRule)
    → get_elem? rs i ≡ some r
    → (non_empty r.url_regexes || non_empty r.blocked_content_types) ≡ true
    → ¬ All IsAcceptable
        (map persistable_rule (update_rule i (edit_rule timezone presets (choose_action allow)) rs))
rejected_rules timezone presets i [] r found conditions ok = cc
rejected_rules timezone presets zero (q ∷ rs) r found conditions ok =
    rejected_rule timezone presets q (ground arith) ok.0
rejected_rules timezone presets (suc i) (q ∷ rs) r found conditions ok =
    rejected_rules timezone presets i rs r found conditions ok.1

-- Choosing `Allow` for a rule that has a URL pattern or a response type gives a draft whose
-- request body holds an allow rule with conditions: the form hides the conditions and sends them.
pub choose_action_rejected :
    (timezone : String) (presets : List SchedulePreset) (d : PolicyGroup) (i : ℕ) (r : GroupRule)
    → get_elem? d.rules i ≡ some r
    → (non_empty r.url_regexes || non_empty r.blocked_content_types) ≡ true
    → ¬ All IsAcceptable
        (persistable_group
          (after d (handle timezone presets (change_rule i (choose_action allow)) d))).rules
unfolding handle persistable_group
choose_action_rejected timezone presets d i r found conditions =
    rejected_rules timezone presets i d.rules r found conditions
