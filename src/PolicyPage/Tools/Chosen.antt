-- ===== src/PolicyPage/Tools/Chosen.antt =====
-- What the selection of categories holds after a save.
use gatesentry.Shared.{
  String, Bool, List, [], ◌∷◌, ◌≡◌, refl, ap, ◌&&◌, ◌||◌, ◌==◌, filter, map, includes, String_eq,
  eq_of_beq, arith, if_cases, Bool-cases, inl, inr,
}
use gatesentry.DeviceDialog.{answered}
use gatesentry.PolicyPage.Tools.{CategoryStatus, Tools, enabled_ids, save_gateway_categories}

-- The categories of the server after it took a selection: those that the selection names are on.
abbrev pub with_selection : List String → List CategoryStatus → List CategoryStatus
with_selection chosen categories =
    map (λ (c : CategoryStatus). record c { enabled = includes chosen c.id }) categories

includes-enabled_ids :
    (chosen : List String) (categories : List CategoryStatus) (id : String)
    → includes (enabled_ids (with_selection chosen categories)) id
      ≡ (includes chosen id && includes (map (λ (c : CategoryStatus). c.id) categories) id)
includes-enabled_ids chosen [] id = ground arith
includes-enabled_ids chosen (c ∷ cs) id =
    let others = includes-enabled_ids chosen cs id in
    let goal =
      includes chosen id && (c.id == id || includes (map (λ (x : CategoryStatus). x.id) cs) id) in
    let rest = filter (λ (x : CategoryStatus). x.enabled) (with_selection chosen cs) in
    let on_row = record c { enabled = includes chosen c.id } in
    elim (Bool-cases (c.id == id)) [
      | inl same ↦
          let agree : includes chosen c.id ≡ includes chosen id =
            ap (includes chosen) (eq_of_beq c.id id same) in
          if_cases
            (λ (xs : List CategoryStatus).
              includes (map (λ (x : CategoryStatus). x.id) xs) id ≡ goal)
            (includes chosen c.id) {x = on_row ∷ rest} {y = rest}
            (λ on. ground (arith, others, same, agree, on))
            (λ off. ground (arith, others, same, agree, off))
      | inr other ↦
          if_cases
            (λ (xs : List CategoryStatus).
              includes (map (λ (x : CategoryStatus). x.id) xs) id ≡ goal)
            (includes chosen c.id) {x = on_row ∷ rest} {y = rest}
            (λ on. ground (arith, others, other, on)) (λ off. ground (arith, others, other, off))
    ]

-- A save of the gateway's categories that the server answers with its categories, those of the selection on,
-- leaves exactly the chosen categories that exist selected, and shows no error.
pub includes-save_gateway_categories :
    (p : Tools) (known : List CategoryStatus) (scheduled : Bool) (id : String)
    → let q =
        save_gateway_categories
          (answered (with_selection p.gateway_selection known, scheduled))
          p in
      (includes q.gateway_selection id ≡ (
        includes p.gateway_selection id && includes (map (λ (c : CategoryStatus). c.id) known) id))
      × (q.error ≡ "")
unfolding save_gateway_categories
includes-save_gateway_categories p known scheduled id =
    (includes-enabled_ids p.gateway_selection known id, refl)
