-- ===== src/PolicyPage/Assign/Failure.antt =====
-- The page after a request of an assignment failed.
use mathlib.Core.Option.{some-injective}
use gatesentry.Shared.{
  String, Option, none, some, List, [], ◌∷◌, ◌≡◌, ap, if◌then◌else◌, non_empty, map_get, String_eq,
}
use gatesentry.PolicyPage.{listed}
use gatesentry.PolicyPage.Assign.{
  AssignmentApi, Page, write_all, failed, finish, assign_selected_devices,
}

module _ {S : Type 0} (api : AssignmentApi S) where
  page-finish :
      (text : String) (selections : List (String × List String)) (r : S × Option String) (p : Page)
      (message : String)
      → r.1 ≡ some message
      → (finish api text selections r p).0 ≡ failed api message p
  page-finish text selections (s, none) p message h = cc
  page-finish text selections (s, some m) p message h =
      ap (λ x. failed api x p) (some-injective _ _ h)

  page-selected :
      (text : String) (selections : List (String × List String)) (g : String) (ds : List String)
      (p : Page) (s : S) (message : String)
      → (write_all api g ds s).1 ≡ some message
      → (if non_empty ds then finish api text selections (write_all api g ds s) p else (p, s)).0
        ≡ failed api message p
  unfolding write_all
  page-selected text selections g [] p s message h = cc
  page-selected text selections g (d ∷ ds) p s message h =
      page-finish text selections (write_all api g (d ∷ ds) s) p message h

  -- A request that fails leaves the page's assignments and selections as they were.
  pub page-assign :
      (group_name : String → String) (g : String) (p : Page) (s : S) (message : String)
      → (write_all api g (listed (map_get p.assigning_devices g)) s).1 ≡ some message
      → (assign_selected_devices api group_name g (p, s)).0 ≡ failed api message p
  unfolding assign_selected_devices
  page-assign group_name g p s message h =
      page-selected _ _ g (listed (map_get p.assigning_devices g)) p s message h
