-- ===== src/ListInputs/Lists.antt =====
-- What the lists hold after an edit.
use gatesentry.Shared.{
  ◌+◌, ◌≤◌, String, Bool, true, false, List, [], ◌∷◌, ◌++◌, ◌≡◌, refl, sym, arith, inl, inr, ◌==◌,
  ◌||◌, if◌then◌else◌, Bool-cases, includes, includes-append, includes-filter_ne, length, String_eq,
  ℕ_eq, eq_of_beq,
}
use gatesentry.GroupForm.Rule.Entries.{IsDistinct, append-IsDistinct}
use gatesentry.ListInputs.{push_all, typed_values, add, toggle, stored}

-- One more value, unless it is there.
abbrev pushed : List String → String → List String
pushed next v = if includes next v then next else next ++ v ∷ []

includes-pushed :
    (next : List String) (v a : String) → includes (pushed next v) a ≡ (includes next a || v == a)
includes-pushed next v a = ground (arith, includes-append next (v ∷ []) a, eq_of_beq v a)

includes-push_all :
    (vs next : List String) (a : String)
    → includes (push_all next vs) a ≡ (includes next a || includes vs a)
unfolding push_all
includes-push_all [] next a = ground arith
includes-push_all (v ∷ vs) next a =
    ground (arith, includes-push_all vs (pushed next v) a, includes-pushed next v a)

pushed-IsDistinct : (next : List String) (v : String) → IsDistinct next → IsDistinct (pushed next v)
pushed-IsDistinct next v h = elim (Bool-cases (includes next v)) [
  | inl old ↦ rw old h
  | inr new ↦ rw new (append-IsDistinct next v new h)
]

push_all-IsDistinct : (vs next : List String) → IsDistinct next → IsDistinct (push_all next vs)
unfolding push_all
push_all-IsDistinct [] next h = h
push_all-IsDistinct (v ∷ vs) next h =
    push_all-IsDistinct vs (pushed next v) (pushed-IsDistinct next v h)

length-append_one : (xs : List String) (v : String) → length (xs ++ v ∷ []) ≡ length xs + 1
length-append_one [] v = refl
length-append_one (x ∷ xs) v = omega (arith, length-append_one xs v)

length-push_all : (vs next : List String) → length next ≤ length (push_all next vs)
unfolding push_all
length-push_all [] next = omega arith
length-push_all (v ∷ vs) next =
    ground (arith, length-push_all vs (pushed next v), length-append_one next v)

-- The list did not grow: then nothing was pushed.
push_all_same :
    (vs next : List String) → length (push_all next vs) ≡ length next → push_all next vs ≡ next
unfolding push_all
push_all_same [] next h = refl
push_all_same (v ∷ vs) next h = elim (Bool-cases (includes next v)) [
  | inl old ↦ rw old (push_all_same vs next (rw old at h))
  | inr new ↦
      let grown = length-push_all vs (next ++ v ∷ []) in
      let long : length (push_all (next ++ v ∷ []) vs) ≡ length next = rw new at h in
      absurd (omega (arith, grown, long, length-append_one next v))
]

stored-add :
    (entries : List String) (draft : String)
    → stored entries (add entries draft) ≡ push_all entries (typed_values draft)
unfolding add
stored-add entries draft =
    elim (Bool-cases (length (push_all entries (typed_values draft)) == length entries)) [
      | inl same ↦ rw same (sym (push_all_same (typed_values draft) entries (eq_of_beq _ _ same)))
      | inr grown ↦ rw grown
    ]

-- After an addition the list holds what it held and every cleaned value that was typed, whether or
-- not a change was dispatched, and if its entries were distinct they still are.
pub stored-add_lem :
    (entries : List String) (draft : String)
    → IsDistinct entries
    → ((a : String)
        → includes (stored entries (add entries draft)) a
          ≡ (includes entries a || includes (typed_values draft) a))
      × IsDistinct (stored entries (add entries draft))
stored-add_lem entries draft h = rw (stored-add entries draft) (
  includes-push_all (typed_values draft) entries,
  push_all-IsDistinct (typed_values draft) entries h,
)

-- After a click on a category, it is selected exactly if its box is checked, and every other
-- category is selected exactly if it was.
pub includes-toggle :
    (selection : List String) (id : String) (checked : Bool) (a : String)
    → includes (stored selection (toggle selection id checked)) a
      ≡ (if id == a then checked else includes selection a)
unfolding toggle
includes-toggle selection id true a =
    ground (arith, includes-append selection (id ∷ []) a, eq_of_beq id a)
includes-toggle selection id false a =
    ground (arith, includes-filter_ne selection id a, eq_of_beq id a)
