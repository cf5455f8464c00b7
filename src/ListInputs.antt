-- ===== src/ListInputs.antt =====
-- The list inputs of the policy editor: ui/src/routes/rules/domainlist.svelte and
-- ui/src/routes/rules/categoryselect.svelte. A handler gives the list of the `change` event that
-- it dispatches, or `none` where it dispatches none.
pub mod Clean
pub mod Lists
use gatesentry.Shared.{
  ℕ, String, Bool, true, false, Option, none, some, List, [], ◌∷◌, ◌++◌, map, ◌==◌, not, nat_eq,
  if◌then◌else◌, filter, includes, length, truthy, String_eq, ℕ_eq,
}
use gatesentry.ListInputs.Clean.{clean, pieces}

-- `for (const value of values) if (!next.includes(value)) next.push(value)`
unfoldable pub push_all : List String → List String → List String
push_all next [] = next
push_all next (v ∷ vs) = push_all (if includes next v then next else next ++ v ∷ []) vs

unfoldable pub typed_values : String → List String
typed_values draft = filter truthy (map clean (pieces draft))

-- `add` of the domain list; the draft is emptied in any case.
unfoldable pub add : List String → String → Option (List String)
add entries draft =
    let next = push_all entries (typed_values draft) in
    if not (length next == length entries) then some next else none

-- `remove` of the domain list
unfoldable pub remove : List String → String → Option (List String)
remove entries entry = some (filter (λ candidate. not (candidate == entry)) entries)

abbrev same_bool : Bool → Bool → Bool
same_bool true b = b
same_bool false b = not b

-- `toggle` of the category selection
unfoldable pub toggle : List String → String → Bool → Option (List String)
toggle selection id checked =
    if same_bool checked (includes selection id)
    then none
    else if checked
    then some (selection ++ id ∷ [])
    else some (filter (λ candidate. not (candidate == id)) selection)

-- The list that the parent holds after the event: each parent stores what it is given.
abbrev pub stored : List String → Option (List String) → List String
stored old none = old
stored old (some new) = new
