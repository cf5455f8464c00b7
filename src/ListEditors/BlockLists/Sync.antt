-- ===== src/ListEditors/BlockLists/Sync.antt =====
-- What saves make of the stored list.
use gatesentry.Shared.{
  String, Bool, true, false, Option, none, some, List, [], ◌∷◌, ◌++◌, ◌≡◌, ◌∙◌, refl, sym, ap, inr,
  ◌||◌, not, if_cases, trim,
}
use mathlib.Core.Bool.{false≢true}
use gatesentry.ListEditors.{ListApi, IsSound}
use gatesentry.ListEditors.BlockLists.{
  Editor, value_is_valid, close_form, next_data, loaded, load_api_data, persisted, persist,
  if_saved, save_row,
}

module _ {S : Type 0} (translator : String → String) (api : ListApi S String)
    (sound : IsSound api) where
  server-persisted :
      (next : List String) (f : Editor → Editor) (p : Editor) (r : S × Option String)
      → (if_saved translator api f (persisted translator api next r p)).1 ≡ r.0
  server-persisted next f p (s, none) = refl
  server-persisted next f p (s, some message) = refl

  server-save_row :
      (p : Editor) (s : S)
      → p.saving ≡ false
      → value_is_valid p.editing_item_value ≡ true
      → p.editing_row_id ≡ none
      → (save_row translator api (p, s)).1
        ≡ (api.save (p.data_rows ++ trim p.editing_item_value ∷ []) s).0
  unfolding save_row persist
  server-save_row p s free valid fresh =
      let value = trim p.editing_item_value in
      let next = next_data p.editing_row_id value p.data_rows in
      let end = (api.save (p.data_rows ++ value ∷ []) s).0 in
      if_cases (λ (x : Editor × S). x.1 ≡ end)
        (not (value_is_valid p.editing_item_value) || p.saving)
        (λ stop. absurd (stopped valid free stop))
        (λ go.
          if_cases (λ r. (if_saved translator api close_form r).1 ≡ end) p.saving
            (λ busy. absurd (false≢true (sym free ∙ busy)))
            (λ idle.
              server-persisted next close_form p (api.save next s)
              ∙ ap (λ i. (api.save (next_data i value p.data_rows) s).0) fresh))
    where
      stopped : {v b : Bool} → v ≡ true → b ≡ false → (not v || b) ≡ true → ⊥
      stopped v b c = cc (v, b, c)

  -- After a load that failed the editor is empty but can be used: the next valid entry that is saved
  -- as a new one replaces the server's whole list, whatever it held.
  pub save_row-overwrites :
      (p : Editor) (s : S) (message : String)
      → p.saving ≡ false
      → value_is_valid p.editing_item_value ≡ true
      → p.editing_row_id ≡ none
      → api.load s ≡ inr message
      → (api.save (trim p.editing_item_value ∷ []) s).1 ≡ none
      → api.held (save_row translator api (load_api_data translator api (p, s))).1
        ≡ trim p.editing_item_value ∷ []
  unfolding load_api_data
  save_row-overwrites p s message free valid fresh failed stored = rw failed (
      ap api.held (server-save_row (loaded translator api (inr message) p) s free valid fresh)
      ∙ sound.stores (trim p.editing_item_value ∷ []) s stored)
