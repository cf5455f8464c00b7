-- ===== src/GroupForm/Rule/Entries.antt =====
-- The list inputs of a rule: `addListEntry` and `removeListEntry`.
use gatesentry.Shared.{
  ◌≤◌, String, Bool, false, List, [], ◌∷◌, ◌++◌, ◌≡◌, refl, ◌∙◌, arith, ◌==◌, ◌&&◌, not, ◌||◌,
  Bool-cases, inl, inr, filter, includes, count, count-append, includes-append, truthy, eq_of_beq,
  beq_self, String_eq, if◌then◌else◌,
}
use native.Mathlib.Nat.{le_trans}
use gatesentry.PolicyModel.Types.{GroupRule}
use gatesentry.GroupForm.Rule.{
  ListField, url, content, entries, entry_value, add_list_entry, remove_list_entry,
}

-- No text is listed twice, as the keyed tags of the form need.
abbrev pub IsDistinct : List String → Type 0
IsDistinct xs = (a : String) → count a xs ≤ 1

count_of_not_includes : (xs : List String) (a : String) → includes xs a ≡ false → count a xs ≡ 0
count_of_not_includes [] a h = refl
count_of_not_includes (x ∷ xs) a h = ground (arith, count_of_not_includes xs a)

pub append-IsDistinct :
    (xs : List String) (v : String)
    → includes xs v ≡ false
    → IsDistinct xs
    → IsDistinct (xs ++ v ∷ [])
append-IsDistinct xs v new h a =
    ground (arith, count-append a xs (v ∷ []), h a, eq_of_beq v a, count_of_not_includes xs v)

count-filter_le :
    (p : String → Bool) (a : String) (xs : List String) → count a (filter p xs) ≤ count a xs
count-filter_le p a [] = omega arith
count-filter_le p a (x ∷ xs) = ground (arith, count-filter_le p a xs)

-- The list after an entry is added to it.
abbrev pub added : List String → String → List String
added xs v = if not (truthy v) || includes xs v then xs else xs ++ v ∷ []

entries-add_list_entry :
    (field : ListField) (lower : Bool) (r : GroupRule)
    → entries field (add_list_entry field lower r)
      ≡ added (entries field r) (entry_value field lower r)
unfolding add_list_entry
entries-add_list_entry url lower r = ground arith
entries-add_list_entry content lower r = ground arith

added-IsDistinct : (xs : List String) (v : String) → IsDistinct xs → IsDistinct (added xs v)
added-IsDistinct xs v h = elim (Bool-cases (not (truthy v) || includes xs v)) [
  | inl old ↦ rw old h
  | inr new ↦ rw new (append-IsDistinct xs v (ground arith) h)
]

-- Adding an entry to a list keeps its entries distinct, whatever was typed.
pub add_list_entry-IsDistinct :
    (field : ListField) (lower : Bool) (r : GroupRule)
    → IsDistinct (entries field r)
    → IsDistinct (entries field (add_list_entry field lower r))
add_list_entry-IsDistinct field lower r h =
    rw (entries-add_list_entry field lower r) (added-IsDistinct _ _ h)

entries-remove_list_entry :
    (field : ListField) (value : String) (r : GroupRule)
    → entries field (remove_list_entry field value r)
      ≡ filter (λ candidate. not (candidate == value)) (entries field r)
unfolding remove_list_entry
entries-remove_list_entry url value r = refl
entries-remove_list_entry content value r = refl

pub remove_list_entry-IsDistinct :
    (field : ListField) (value : String) (r : GroupRule)
    → IsDistinct (entries field r)
    → IsDistinct (entries field (remove_list_entry field value r))
remove_list_entry-IsDistinct field value r h a =
    rw (entries-remove_list_entry field value r)
      (le_trans (count-filter_le _ a (entries field r)) (h a))

includes-added :
    (xs : List String) (v a : String)
    → includes (added xs v) a ≡ (includes xs a || (truthy v && v == a))
includes-added xs v a = ground (arith, includes-append xs (v ∷ []) a, eq_of_beq v a)

-- After an add the list holds what it held and the entered text, trimmed and, for a response
-- type, in lower case; an empty entry adds nothing.
pub includes-add_list_entry :
    (field : ListField) (lower : Bool) (r : GroupRule) (a : String)
    → includes (entries field (add_list_entry field lower r)) a ≡ (
        includes (entries field r) a
        || (truthy (entry_value field lower r) && entry_value field lower r == a))
includes-add_list_entry field lower r a =
    rw (entries-add_list_entry field lower r) (includes-added _ _ a)

filter_of_not-includes :
    (xs : List String) (v : String)
    → includes xs v ≡ false
    → filter (λ candidate. not (candidate == v)) xs ≡ xs
filter_of_not-includes [] v h = refl
filter_of_not-includes (x ∷ xs) v h = ground (arith, filter_of_not-includes xs v)

filter-append_self :
    (xs : List String) (v : String)
    → includes xs v ≡ false
    → filter (λ candidate. not (candidate == v)) (xs ++ v ∷ []) ≡ xs
filter-append_self [] v h = ground (arith, beq_self v)
filter-append_self (x ∷ xs) v h = ground (arith, filter-append_self xs v)

filter-added :
    (xs : List String) (v : String)
    → includes xs v ≡ false
    → filter (λ candidate. not (candidate == v)) (added xs v) ≡ xs
filter-added xs v new = elim (Bool-cases (truthy v)) [
  | inl full ↦ rw (full, new) (filter-append_self xs v new)
  | inr empty ↦ rw empty (filter_of_not-includes xs v new)
]

-- Removing the entry that was just added restores the list, if the entry was not in it.
pub remove-add_list_entry :
    (field : ListField) (lower : Bool) (r : GroupRule)
    → includes (entries field r) (entry_value field lower r) ≡ false
    → entries field
        (remove_list_entry field (entry_value field lower r) (add_list_entry field lower r))
      ≡ entries field r
remove-add_list_entry field lower r new =
    entries-remove_list_entry field (entry_value field lower r) (add_list_entry field lower r)
    ∙ rw (entries-add_list_entry field lower r) (filter-added _ _ new)
