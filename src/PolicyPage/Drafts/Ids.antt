-- ===== src/PolicyPage/Drafts/Ids.antt =====
-- The policies that the page lists after a save or a deletion.
use gatesentry.Shared.{
  String, Bool, false, List, [], ◌∷◌, map, ◌≡◌, refl, sym, ap, ap₂, ◌⊎◌, inl, inr, ◌==◌, not,
  if_cases, Bool-cases, truthy, trim, eq_of_beq, String_eq,
}
use gatesentry.PolicyModel.Types.{PolicyGroup, ApiGroup, GroupBody}
use gatesentry.PolicyModel.Copy.{copy_group}
use gatesentry.PolicyPage.Drafts.{Editor, cancel_edit, replace_group, store_saved, save_group}

abbrev pub group_ids : List PolicyGroup → List String
group_ids = map (λ g. g.id)

ids-replace_group :
    (saved : PolicyGroup) (gs : List PolicyGroup)
    → group_ids (replace_group saved gs) ≡ group_ids gs
ids-replace_group saved [] = refl
ids-replace_group saved (g ∷ gs) = elim (Bool-cases (g.id == saved.id)) [
  | inl same ↦ rw same (ap₂ ◌∷◌ (sym (eq_of_beq g.id saved.id same)) (ids-replace_group saved gs))
  | inr other ↦ rw other (ap (g.id ∷◌) (ids-replace_group saved gs))
]

ids-store_saved :
    (answer : ApiGroup ⊎ String) (p : Editor)
    → group_ids (store_saved false answer p).groups ≡ group_ids p.groups
unfolding cancel_edit
ids-store_saved (inl g) p = ids-replace_group (copy_group g) p.groups
ids-store_saved (inr message) p = refl

-- Saving a policy that is not new leaves the ids of the listed policies and their order as they
-- were, whatever the server answers.
pub save_group-ids :
    (request : Bool → String → GroupBody → ApiGroup ⊎ String) (p : Editor)
    → (p.editing_group_id == "new") ≡ false
    → group_ids (save_group request p).groups ≡ group_ids p.groups
unfolding save_group
save_group-ids request p old =
    if_cases (λ (q : Editor). group_ids q.groups ≡ group_ids p.groups)
      (not (truthy (trim p.draft.name))) (λ nameless. refl) (λ named. rw old (ids-store_saved _ p))
