-- ===== src/GroupForm/Draft/Order.antt =====
-- The order of the rules: `moveRule`, `addRule` and `removeRule`.
use mathlib.Core.List.{Perm}
use mathlib.Core.List.Perm
use gatesentry.Shared.{
  ℕ, zero, suc, ◌<◌, ◌≤◌, Option, none, some, List, [], ◌∷◌, ◌++◌, ◌≡◌, refl, ◌∙◌, ap, sym, inl,
  inr, arith, Bool-cases, ltb, length, get_elem?,
}
use gatesentry.PolicyModel.Types.{GroupRule, empty_rule}
use gatesentry.GroupForm.Draft.{
  Direction, up, down, write_pair, swap_rules, move_rule, remove_rule, add_rule,
}

-- The rules with those at `i` and at `i + 1` exchanged, if both are there.
abbrev pub exchange : ℕ → List GroupRule → List GroupRule
exchange zero (a ∷ b ∷ rest) = b ∷ a ∷ rest
exchange zero rules = rules
exchange (suc i) [] = []
exchange (suc i) (a ∷ rest) = a ∷ exchange i rest

write_pair-cons :
    (x : GroupRule) (xs : List GroupRule) (i j : ℕ) (a b : Option GroupRule)
    → write_pair (x ∷ xs) (suc i) (suc j) a b ≡ x ∷ write_pair xs i j a b
write_pair-cons x xs i j none b = refl
write_pair-cons x xs i j (some a) none = refl
write_pair-cons x xs i j (some a) (some b) = refl

swap_rules-down : (i : ℕ) (rules : List GroupRule) → swap_rules i (suc i) rules ≡ exchange i rules
unfolding swap_rules
swap_rules-down zero [] = refl
swap_rules-down zero (a ∷ []) = refl
swap_rules-down zero (a ∷ b ∷ rest) = refl
swap_rules-down (suc i) [] = refl
swap_rules-down (suc i) (a ∷ rest) =
    write_pair-cons a rest i (suc i) _ _ ∙ ap (a ∷◌) (swap_rules-down i rest)

write_pair-none :
    (xs : List GroupRule) (i j : ℕ) (a : Option GroupRule) → write_pair xs i j a none ≡ xs
write_pair-none xs i j none = refl
write_pair-none xs i j (some a) = refl

swap_rules-up : (i : ℕ) (rules : List GroupRule) → swap_rules (suc i) i rules ≡ exchange i rules
unfolding swap_rules
swap_rules-up zero [] = refl
swap_rules-up zero (a ∷ []) = refl
swap_rules-up zero (a ∷ b ∷ rest) = refl
swap_rules-up (suc i) [] = refl
swap_rules-up (suc i) (a ∷ rest) =
    write_pair-cons a rest (suc i) i _ _ ∙ ap (a ∷◌) (swap_rules-up i rest)

exchange_of_short :
    (i : ℕ) (rules : List GroupRule) → length rules ≤ suc i → exchange i rules ≡ rules
exchange_of_short zero [] h = refl
exchange_of_short zero (a ∷ []) h = refl
exchange_of_short zero (a ∷ b ∷ rest) h = absurd (omega arith)
exchange_of_short (suc i) [] h = refl
exchange_of_short (suc i) (a ∷ rest) h = ap (a ∷◌) (exchange_of_short i rest (omega arith))

pub move_rule-down : (i : ℕ) (rules : List GroupRule) → move_rule i down rules ≡ exchange i rules
unfolding move_rule
move_rule-down i rules = elim (Bool-cases (ltb (suc i) (length rules))) [
  | inl within ↦ rw within (swap_rules-down i rules)
  | inr past ↦ rw past (sym (exchange_of_short i rules (ground arith)))
]

pub move_rule-up : (i : ℕ) (rules : List GroupRule) → move_rule (suc i) up rules ≡ exchange i rules
unfolding move_rule
move_rule-up i rules = elim (Bool-cases (ltb i (length rules))) [
  | inl within ↦ rw within (swap_rules-up i rules)
  | inr past ↦ rw past (sym (exchange_of_short i rules (ground arith)))
]

exchange_self : (i : ℕ) (rules : List GroupRule) → exchange i (exchange i rules) ≡ rules
exchange_self zero [] = refl
exchange_self zero (a ∷ []) = refl
exchange_self zero (a ∷ b ∷ rest) = refl
exchange_self (suc i) [] = refl
exchange_self (suc i) (a ∷ rest) = ap (a ∷◌) (exchange_self i rest)

exchange-perm : (i : ℕ) (rules : List GroupRule) → Perm (exchange i rules) rules
exchange-perm zero [] = Perm.refl []
exchange-perm zero (a ∷ []) = Perm.refl (a ∷ [])
exchange-perm zero (a ∷ b ∷ rest) = Perm.swap a b rest
exchange-perm (suc i) [] = Perm.refl []
exchange-perm (suc i) (a ∷ rest) = Perm.cons a (exchange-perm i rest)

-- Moving a rule up or down only reorders the rules: none is lost, added or changed.
pub move_rule-perm :
    (i : ℕ) (d : Direction) (rules : List GroupRule) → Perm (move_rule i d rules) rules
move_rule-perm i down rules = rw (move_rule-down i rules) (exchange-perm i rules)
move_rule-perm (suc i) up rules = rw (move_rule-up i rules) (exchange-perm i rules)
move_rule-perm zero up rules = unfold move_rule in Perm.refl rules

-- Moving a rule down and the rule below its old place back up restores the order, and the other
-- way round.
pub move_rule-move_rule :
    (i : ℕ) (rules : List GroupRule)
    → (move_rule (suc i) up (move_rule i down rules) ≡ rules)
      × (move_rule i down (move_rule (suc i) up rules) ≡ rules)
move_rule-move_rule i rules = (
  rw (move_rule-down i rules, move_rule-up i (exchange i rules)) (exchange_self i rules),
  rw (move_rule-up i rules, move_rule-down i (exchange i rules)) (exchange_self i rules),
)

get_elem?-exchange :
    (i : ℕ) (rules : List GroupRule)
    → suc i < length rules
    → (get_elem? (exchange i rules) i ≡ get_elem? rules (suc i))
      × (get_elem? (exchange i rules) (suc i) ≡ get_elem? rules i)
get_elem?-exchange zero [] h = absurd (omega arith)
get_elem?-exchange zero (a ∷ []) h = absurd (omega arith)
get_elem?-exchange zero (a ∷ b ∷ rest) h = (refl, refl)
get_elem?-exchange (suc i) [] h = absurd (omega arith)
get_elem?-exchange (suc i) (a ∷ rest) h = get_elem?-exchange i rest (omega arith)

-- A rule that is moved down changes places with the one below it, if there is one.
pub get_elem?-move_rule :
    (i : ℕ) (rules : List GroupRule)
    → suc i < length rules
    → (get_elem? (move_rule i down rules) i ≡ get_elem? rules (suc i))
      × (get_elem? (move_rule i down rules) (suc i) ≡ get_elem? rules i)
get_elem?-move_rule i rules h = rw (move_rule-down i rules) (get_elem?-exchange i rules h)

remove_rule-append :
    (rules : List GroupRule) (r : GroupRule) → remove_rule (length rules) (rules ++ r ∷ []) ≡ rules
unfolding remove_rule
remove_rule-append [] r = refl
remove_rule-append (a ∷ rules) r = ap (a ∷◌) (remove_rule-append rules r)

-- A rule that is added stands last, so removing the last position undoes the addition.
pub remove_rule-add_rule :
    (rules : List GroupRule) → remove_rule (length rules) (add_rule rules) ≡ rules
unfolding add_rule
remove_rule-add_rule rules = remove_rule-append rules empty_rule
