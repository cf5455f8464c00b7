-- ===== src/PolicyModel/Summary/Laws.antt =====
-- What the bedtime switch, the advanced section and the summary rely on.
use gatesentry.Shared.{
  ◌≤◌, String, true, false, Option, none, List, [], ◌∷◌, ◌≡◌, refl, ◌⊎◌, inl, inr, ◌↔◌, arith, All,
  length, filter, find, not, ◌&&◌,
}
use gatesentry.PolicyModel.Types.{SchedulePreset, GroupRule, PolicyGroup}
use gatesentry.PolicyModel.Labels.{needs_proxy}
use gatesentry.PolicyModel.Summary.{
  is_bedtime_rule, bedtime_rule, has_advanced_settings, policy_parts,
}

-- The rule that the bedtime switch makes is recognized as one, whatever the zone and the preset.
pub is_bedtime_rule-bedtime_rule :
    (timezone : String) (preset : Option SchedulePreset)
    → is_bedtime_rule (bedtime_rule timezone preset) ≡ true
unfolding is_bedtime_rule bedtime_rule
is_bedtime_rule-bedtime_rule timezone preset = refl

-- DNS alone can enforce a bedtime rule: it has no condition that only the proxy sees.
pub needs_proxy_of_is_bedtime_rule :
    (r : GroupRule) → is_bedtime_rule r ≡ true → needs_proxy r ≡ false
unfolding is_bedtime_rule needs_proxy
needs_proxy_of_is_bedtime_rule r h = ground arith

length-filter_le : (rs : List GroupRule) → length (filter is_bedtime_rule rs) ≤ length rs
length-filter_le [] = omega arith
length-filter_le (r ∷ rs) = ground (arith, length-filter_le rs)

-- The policies that the simple editor shows in full: no users, and no rule but one bedtime rule.
abbrev pub IsSimple : PolicyGroup → Type 0
IsSimple g =
    (g.users ≡ [])
    × ((g.rules ≡ []) ⊎ ((r : GroupRule) × (g.rules ≡ r ∷ []) × (is_bedtime_rule r ≡ true)))

simple_rules :
    (rs : List GroupRule)
    → length rs ≤ length (filter is_bedtime_rule rs)
    → length (filter is_bedtime_rule rs) ≤ 1
    → (rs ≡ []) ⊎ ((r : GroupRule) × (rs ≡ r ∷ []) × (is_bedtime_rule r ≡ true))
simple_rules [] h k = inl refl
simple_rules (r ∷ []) h k = inr (r, refl, ground arith)
simple_rules (r ∷ s ∷ rs) h k = absurd (omega arith)

-- The advanced section opens exactly for a policy that the simple editor does not show in full.
pub has_advanced_settings-eq-false_iff :
    (g : PolicyGroup) → (has_advanced_settings g ≡ false) ↔ IsSimple g
unfolding has_advanced_settings
has_advanced_settings-eq-false_iff g =
    (λ h. (ground arith, simple_rules g.rules (ground arith) (ground arith)), λ s. ground arith)

-- No rule of the list shows in the summary: each is a bedtime rule that is switched off.
abbrev pub IsAsleep : GroupRule → Type 0
IsAsleep r = (is_bedtime_rule r ≡ true) × (r.enabled ≡ false)

IsAsleep-of_parts :
    (rs : List GroupRule)
    → find (λ r. r.enabled && is_bedtime_rule r) rs ≡ none
    → length (filter (λ r. not (is_bedtime_rule r)) rs) ≤ 0
    → All IsAsleep rs
IsAsleep-of_parts [] h k = tt
IsAsleep-of_parts (r ∷ rs) h k = ground (arith, IsAsleep-of_parts rs)

find_of_asleep :
    (rs : List GroupRule) → All IsAsleep rs → find (λ r. r.enabled && is_bedtime_rule r) rs ≡ none
find_of_asleep [] h = refl
find_of_asleep (r ∷ rs) h = ground (arith, find_of_asleep rs)

others_of_asleep :
    (rs : List GroupRule) → All IsAsleep rs → length (filter (λ r. not (is_bedtime_rule r)) rs) ≤ 0
others_of_asleep [] h = omega arith
others_of_asleep (r ∷ rs) h = ground (arith, others_of_asleep rs)

-- The policy lists nothing to block or to allow, does not ask for safe search, and its rules are
-- bedtime rules that are switched off.
pub record HasNoEffect (g : PolicyGroup) : Type 0 where
  pub no_categories : g.blocked_categories ≡ []
  pub no_blocked : g.blocked_domains ≡ []
  pub no_allowed : g.allowed_domains ≡ []
  pub no_safe_search : g.safe_search ≡ false
  pub asleep : All IsAsleep g.rules

parts_of_HasNoEffect :
    (g : PolicyGroup) (names : String → String) → HasNoEffect g → policy_parts g names ≡ []
unfolding policy_parts
parts_of_HasNoEffect g names h =
    ground (arith, find_of_asleep g.rules h.asleep, others_of_asleep g.rules h.asleep)

HasNoEffect-of_parts :
    (g : PolicyGroup) (names : String → String) → policy_parts g names ≡ [] → HasNoEffect g
unfolding policy_parts
HasNoEffect-of_parts g names e = record {
  no_categories = ground arith;
  no_blocked = ground arith;
  no_allowed = ground arith;
  no_safe_search = ground arith;
  asleep = IsAsleep-of_parts g.rules (ground arith) (ground arith);
}

-- A summary has no part exactly for a policy without effect of its own.
pub policy_parts-eq-nil_iff :
    (g : PolicyGroup) (names : String → String) → (policy_parts g names ≡ []) ↔ HasNoEffect g
policy_parts-eq-nil_iff g names = (HasNoEffect-of_parts g names, parts_of_HasNoEffect g names)
