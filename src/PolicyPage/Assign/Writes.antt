-- ===== src/PolicyPage/Assign/Writes.antt =====
-- What an assignment of several devices leaves on the server and on the page.
use mathlib.Core.Bool.{false≢true}
use gatesentry.Shared.{
  String, true, false, Option, none, some, List, [], ◌∷◌, ◌≡◌, ◌≢◌, ◌∙◌, refl, sym, ap, subst,
  arith, inl, inr, Bool-cases, Option-cases, ◌==◌, if◌then◌else◌, truthy, non_empty, includes,
  map_get, All, eq_of_beq, beq_self, String_eq,
}
use gatesentry.PolicyModel.Types.{default_group_id}
use gatesentry.PolicyPage.{listed}
use gatesentry.PolicyPage.Assign.{
  AssignmentApi, IsSound, Page, body_group, write_device_policy, write_all, finish,
  assign_selected_devices,
}
use gatesentry.PolicyPage.Assign.Failure.{page-assign}

ne_of_beq : (d e : String) → (d == e) ≡ false → d ≢ e
ne_of_beq d e h p = false≢true (sym h ∙ (ap (λ x. d == x) (sym p) ∙ beq_self d))

module _ {S : Type 0} (api : AssignmentApi S) (sound : IsSound api) where
  body_group_lem :
      (g : String)
      → truthy g ≡ true
      → (if truthy (body_group g) then body_group g else default_group_id) ≡ g
  body_group_lem g named = elim (Bool-cases (g == default_group_id)) [
    | inl default ↦ rw default (sym (eq_of_beq g default_group_id default))
    | inr own ↦ rw (own, named)
  ]

  write_assigns :
      (d g : String) (s : S)
      → truthy g ≡ true
      → (write_device_policy api d g s).1 ≡ none
      → api.group_of d (write_device_policy api d g s).0 ≡ g
  unfolding write_device_policy
  write_assigns d g s named ok = sound.assigns d (body_group g) s ok ∙ body_group_lem g named

  -- Writing keeps a device that is on the policy there.
  write_keeps :
      (d g e : String) (s : S)
      → truthy g ≡ true
      → (write_device_policy api d g s).1 ≡ none
      → api.group_of e s ≡ g
      → api.group_of e (write_device_policy api d g s).0 ≡ g
  write_keeps d g e s named ok there = elim (Bool-cases (d == e)) [
    | inl same ↦ rw (← eq_of_beq d e same) (write_assigns d g s named ok)
    | inr other ↦
        unfold write_device_policy in
        sound.leaves d (body_group g) e s (ne_of_beq d e other) ∙ there
  ]

  write_all_ok :
      (g d : String) (ds : List String) (s : S)
      → (write_device_policy api d g s).1 ≡ none
      → write_all api g (d ∷ ds) s ≡ write_all api g ds (write_device_policy api d g s).0
  unfolding write_all
  write_all_ok g d ds s done = rw (write_all, done)

  write_all_broken :
      (g d : String) (ds : List String) (s : S) (message : String)
      → (write_device_policy api d g s).1 ≡ some message
      → write_all api g (d ∷ ds) s ≡ ((write_device_policy api d g s).0, some message)
  unfolding write_all
  write_all_broken g d ds s message broken = rw (write_all, broken)

  write_all_keeps :
      (g : String) (ds : List String) (e : String) (s : S)
      → truthy g ≡ true
      → (write_all api g ds s).1 ≡ none
      → api.group_of e s ≡ g
      → api.group_of e (write_all api g ds s).0 ≡ g
  unfolding write_all
  write_all_keeps g [] e s named ok there = there
  write_all_keeps g (d ∷ ds) e s named ok there =
      elim (Option-cases (write_device_policy api d g s).1) [
        | inl done ↦ rw (write_all_ok g d ds s done) (
            write_all_keeps g ds e (write_device_policy api d g s).0 named
              (rw (write_all_ok g d ds s done) at ok) (write_keeps d g e s named done there))
        | inr (message, broken) ↦
            absurd (some_none (rw (write_all_broken g d ds s message broken) at ok))
      ]
    where
      some_none : {m : String} → ¬ (some m ≡ none)
      some_none h = cc

  write_all_assigns :
      (g : String) (ds : List String) (s : S)
      → truthy g ≡ true
      → (write_all api g ds s).1 ≡ none
      → All (λ d. api.group_of d (write_all api g ds s).0 ≡ g) ds
  unfolding write_all
  write_all_assigns g [] s named ok = tt
  write_all_assigns g (d ∷ ds) s named ok = elim (Option-cases (write_device_policy api d g s).1) [
    | inl done ↦
        let next = (write_device_policy api d g s).0 in
        let rest : (write_all api g ds next).1 ≡ none = rw (write_all_ok g d ds s done) at ok in
        subst (λ r. All (λ e. api.group_of e r.0 ≡ g) (d ∷ ds)) (sym (write_all_ok g d ds s done))
          (
            write_all_keeps g ds d next named rest (write_assigns d g s named done),
            write_all_assigns g ds next named rest,
          )
    | inr (message, broken) ↦
        absurd (some_none (rw (write_all_broken g d ds s message broken) at ok))
  ]
    where
      some_none : {m : String} → ¬ (some m ≡ none)
      some_none h = cc

  -- A device that is not written keeps its policy, even where a request fails.
  write_all_leaves :
      (g : String) (ds : List String) (e : String) (s : S)
      → includes ds e ≡ false
      → api.group_of e (write_all api g ds s).0 ≡ api.group_of e s
  unfolding write_all
  write_all_leaves g [] e s apart = refl
  write_all_leaves g (d ∷ ds) e s apart = elim (Option-cases (write_device_policy api d g s).1) [
    | inl done ↦
        rw (write_all_ok g d ds s done)
          (write_all_leaves g ds e (write_device_policy api d g s).0 (ground arith) ∙ kept)
    | inr (message, broken) ↦ rw (write_all_broken g d ds s message broken) kept
  ]
    where
      kept : api.group_of e (write_device_policy api d g s).0 ≡ api.group_of e s
      kept =
          unfold write_device_policy in
          sound.leaves d (body_group g) e s (ne_of_beq d e (ground arith))

  server-finish :
      (text : String) (selections : List (String × List String)) (r : S × Option String) (p : Page)
      → (finish api text selections r p).1 ≡ r.0
  server-finish text selections (s, none) p = refl
  server-finish text selections (s, some message) p = refl

  server-selected :
      (text : String) (selections : List (String × List String)) (g : String) (ds : List String)
      (p : Page) (s : S)
      → (if non_empty ds then finish api text selections (write_all api g ds s) p else (p, s)).1
        ≡ (write_all api g ds s).0
  server-selected text selections g [] p s = unfold write_all in refl
  server-selected text selections g (d ∷ ds) p s = server-finish text selections _ p

  server-assign :
      (group_name : String → String) (g : String) (p : Page) (s : S)
      → (assign_selected_devices api group_name g (p, s)).1
        ≡ (write_all api g (listed (map_get p.assigning_devices g)) s).0
  unfolding assign_selected_devices
  server-assign group_name g p s =
      server-selected _ _ g (listed (map_get p.assigning_devices g)) p s

  -- If the requests for all selected devices succeed, the server has each of them on the policy, if the
  -- policy has an id.
  pub assign_selected_devices_lem :
      (group_name : String → String) (g : String) (p : Page) (s : S)
      → truthy g ≡ true
      → (write_all api g (listed (map_get p.assigning_devices g)) s).1 ≡ none
      → All
          (λ d. api.group_of d (assign_selected_devices api group_name g (p, s)).1 ≡ g)
          (listed (map_get p.assigning_devices g))
  assign_selected_devices_lem group_name g p s named ok =
      rw (server-assign group_name g p s) (write_all_assigns g _ s named ok)

  -- A device that is not selected keeps its policy on the server, whether or not a request fails.
  pub assign_selected_devices-leaves :
      (group_name : String → String) (g : String) (p : Page) (s : S) (e : String)
      → includes (listed (map_get p.assigning_devices g)) e ≡ false
      → api.group_of e (assign_selected_devices api group_name g (p, s)).1 ≡ api.group_of e s
  assign_selected_devices-leaves group_name g p s e apart =
      rw (server-assign group_name g p s) (write_all_leaves g _ e s apart)

  first_moved :
      (g d : String) (ds : List String) (s : S) (message : String)
      → truthy g ≡ true
      → includes ds d ≡ false
      → (write_device_policy api d g s).1 ≡ none
      → api.group_of d (write_all api g (d ∷ ds) s).0 ≡ g
  first_moved g d ds s message named once first =
      ap (λ r. api.group_of d r.0) (write_all_ok g d ds s first)
      ∙ (write_all_leaves g ds d (write_device_policy api d g s).0 once
          ∙ write_assigns d g s named first)

  -- If the request for the first selected device succeeds and a later one fails, then the server has
  -- the first device on the policy, if the policy has an id and the device is selected once, but the
  -- page keeps the assignments from before and shows the error.
  pub assign_selected_devices-partial :
      (group_name : String → String) (g : String) (p : Page) (s : S) (d : String) (ds : List String)
      (message : String)
      → truthy g ≡ true
      → listed (map_get p.assigning_devices g) ≡ d ∷ ds
      → includes ds d ≡ false
      → (write_device_policy api d g s).1 ≡ none
      → (write_all api g ds (write_device_policy api d g s).0).1 ≡ some message
      → (api.group_of d (assign_selected_devices api group_name g (p, s)).1 ≡ g)
        × ((assign_selected_devices api group_name g (p, s)).0.assignments ≡ p.assignments)
        × ((assign_selected_devices api group_name g (p, s)).0.error ≡ message)
  assign_selected_devices-partial group_name g p s d ds message named chosen once first later =
      let whole : (write_all api g (listed (map_get p.assigning_devices g)) s).1 ≡ some message =
        ap (λ xs. (write_all api g xs s).1) chosen
        ∙ (ap (λ r. r.1) (write_all_ok g d ds s first) ∙ later) in
      let page = page-assign api group_name g p s message whole in
      (
        ap (api.group_of d) (server-assign group_name g p s)
            ∙ (ap (λ xs. api.group_of d (write_all api g xs s).0) chosen
                ∙ first_moved g d ds s message named once first),
        ap (λ (q : Page). q.assignments) page,
        ap (λ (q : Page). q.error) page,
      )
