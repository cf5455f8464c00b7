-- ===== src/GroupForm/Draft/Invariant.antt =====
-- What every event of the form keeps, and that none of its handlers throws.
use gatesentry.Shared.{
  ℕ, zero, suc, String, Bool, true, false, Option, none, some, List, [], ◌∷◌, ◌≡◌, refl, inl, inr,
  String_eq, Bool-cases, option_map, option_map-eq-some, subst, All, All-append, All-erase_idx,
}
use mathlib.Core.Option.{some-injective}
use gatesentry.PolicyModel.Types.{SchedulePreset, GroupRule, PolicyGroup, empty_rule}
use gatesentry.PolicyModel.Summary.{is_bedtime_rule, bedtime_rule}
use gatesentry.GroupForm.Rule.{WindowKey}
use gatesentry.GroupForm.Draft.Order.{exchange, move_rule-down, move_rule-up}
use gatesentry.GroupForm.Draft.{
  set_bedtime, switch_on, switch_off, remove_rule, add_rule, Direction, up, down, move_rule,
  update_rule, write_bedtime, on_bedtime_time, on_bedtime_days, bedtime_days, RuleEdit, edit_rule,
  Event, toggle_bedtime, bedtime_time, choose_bedtime_days, new_rule, drop_rule, shift_rule,
  change_rule, handle, after, edit, find_index,
}

-- A property of rules that every way of making or changing a rule keeps.
pub record IsKept (P : GroupRule → Type 0) (timezone : String) (presets : List SchedulePreset)
    : Type 0 where
  pub fresh : P empty_rule
  pub bedtime : (p : Option SchedulePreset) → P (bedtime_rule timezone p)
  pub edited : (e : RuleEdit) (r : GroupRule) → P r → P (edit_rule timezone presets e r)
  pub timed :
      (key : WindowKey) (v : String) (r r' : GroupRule)
      → write_bedtime key v r ≡ some r'
      → P r
      → P r'
  pub dayed :
      (days : List ℕ) (r : GroupRule)
      → P r
      → P (record r { schedule = bedtime_days days r.schedule })

module _ (P : GroupRule → Type 0) where
  All-exchange : (i : ℕ) (rs : List GroupRule) → All P rs → All P (exchange i rs)
  All-exchange zero [] h = h
  All-exchange zero (a ∷ []) h = h
  All-exchange zero (a ∷ b ∷ rest) (p, (q, h)) = (q, (p, h))
  All-exchange (suc i) [] h = h
  All-exchange (suc i) (a ∷ rest) (p, h) = (p, All-exchange i rest h)

  All-move_rule :
      (i : ℕ) (d : Direction) (rs : List GroupRule) → All P rs → All P (move_rule i d rs)
  All-move_rule i down rs h = rw (move_rule-down i rs) (All-exchange i rs h)
  All-move_rule (suc i) up rs h = rw (move_rule-up i rs) (All-exchange i rs h)
  All-move_rule zero up rs h = unfold move_rule in h

  All-update_rule :
      (i : ℕ) (f : GroupRule → GroupRule) (rs : List GroupRule)
      → ((r : GroupRule) → P r → P (f r))
      → All P rs
      → All P (update_rule i f rs)
  All-update_rule i f [] keep h = tt
  All-update_rule zero f (r ∷ rs) keep (p, h) = (keep r p, h)
  All-update_rule (suc i) f (r ∷ rs) keep (p, h) = (p, All-update_rule i f rs keep h)

module _ {P : GroupRule → Type 0} {timezone : String} {presets : List SchedulePreset}
    (kept : IsKept P timezone presets) where
  All-switch_off : (o : Option ℕ) (rs : List GroupRule) → All P rs → All P (switch_off o rs)
  unfolding switch_off remove_rule
  All-switch_off none rs h = h
  All-switch_off (some i) rs h = All-erase_idx P rs i h

  All-switch_on :
      (o : Option ℕ) (rs : List GroupRule) → All P rs → All P (switch_on timezone presets o rs)
  unfolding switch_on
  All-switch_on none rs h = (kept.bedtime _, h)
  All-switch_on (some i) rs h = h

  All-set_bedtime :
      (on : Bool) (rs : List GroupRule) → All P rs → All P (set_bedtime timezone presets on rs)
  unfolding set_bedtime
  All-set_bedtime true rs h = All-switch_on (find_index is_bedtime_rule rs) rs h
  All-set_bedtime false rs h = All-switch_off (find_index is_bedtime_rule rs) rs h

  All-on_bedtime_days :
      (days : List ℕ) (rs : List GroupRule) → All P rs → All P (on_bedtime_days days rs)
  unfolding on_bedtime_days
  All-on_bedtime_days days [] h = tt
  All-on_bedtime_days days (r ∷ rs) (p, h) = elim (Bool-cases (is_bedtime_rule r)) [
    | inl here ↦ rw here (kept.dayed days r p, h)
    | inr later ↦ rw later (p, All-on_bedtime_days days rs h)
  ]

  All-on_bedtime_time :
      (key : WindowKey) (v : String) (rs rs' : List GroupRule)
      → All P rs
      → on_bedtime_time key v rs ≡ some rs'
      → All P rs'
  unfolding on_bedtime_time
  All-on_bedtime_time key v [] rs' h e = subst (All P) (some-injective _ _ e) h
  All-on_bedtime_time key v (r ∷ rs) rs' (p, h) e = elim (Bool-cases (is_bedtime_rule r)) [
    | inl here ↦
        let (r', wrote, same) = option_map-eq-some _ _ (rw here at e) in
        subst (All P) same (kept.timed key v r r' wrote p, h)
    | inr later ↦
        let (rest, wrote, same) = option_map-eq-some _ _ (rw later at e) in
        subst (All P) same (p, All-on_bedtime_time key v rs rest h wrote)
  ]

  All-after_time :
      (d : PolicyGroup) (o : Option (List GroupRule))
      → ((rs : List GroupRule) → o ≡ some rs → All P rs)
      → All P d.rules
      → All P (after d (option_map (λ rs. record d { rules = rs }) o)).rules
  All-after_time d none found h = h
  All-after_time d (some rs) found h = found rs refl

  -- Every event keeps a property that every change of a rule keeps.
  pub handle-All :
      (e : Event) (d : PolicyGroup)
      → All P d.rules
      → All P (after d (handle timezone presets e d)).rules
  unfolding handle
  handle-All (toggle_bedtime on) d h = All-set_bedtime on d.rules h
  handle-All (bedtime_time key v) d h =
      All-after_time d (on_bedtime_time key v d.rules)
        (λ rs e. All-on_bedtime_time key v d.rules rs h e) h
  handle-All (choose_bedtime_days days) d h = All-on_bedtime_days days d.rules h
  handle-All new_rule d h =
      unfold add_rule in All-append P d.rules (empty_rule ∷ []) h (kept.fresh, tt)
  handle-All (drop_rule i) d h = unfold remove_rule in All-erase_idx P d.rules i h
  handle-All (shift_rule i dir) d h = All-move_rule P i dir d.rules h
  handle-All (change_rule i e) d h =
      All-update_rule P i (edit_rule timezone presets e) d.rules (kept.edited e) h
  handle-All _ d h = h

  pub edit-All :
      (es : List Event) (d : PolicyGroup) → All P d.rules → All P (edit timezone presets es d).rules
  unfolding edit
  edit-All [] d h = h
  edit-All (e ∷ es) d h = edit-All es (after d (handle timezone presets e d)) (handle-All e d h)
