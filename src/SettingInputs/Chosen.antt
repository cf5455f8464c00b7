-- ===== src/SettingInputs/Chosen.antt =====
-- What a choice of a radio button leaves.
use mathlib.Core.Bool.{false≢true}
use gatesentry.Shared.{
  String, Bool, true, false, ◌≡◌, ◌∙◌, refl, sym, ◌⊎◌, inl, inr, ◌||◌, ◌==◌, truthy, if_cases,
  String_eq, eq_of_beq, arith,
}
use gatesentry.SettingInputs.{
  Answer, saved, refused, thrown, SettingApi, Field, network_updated, update_network,
  update_field_radio,
}
use gatesentry.ListEditors.{error_text}

abbrev pub is_saved : Answer → Bool
is_saved saved = true
is_saved refused = false
is_saved (thrown message) = false

-- A field after the choice of a value, with the value that was saved before and the answer that a save of the chosen
-- one gets: the buttons show the saved value; it is the chosen one, or the one before with an error.
abbrev pub IsChosen : String → String → Answer → Field → Type 0
IsChosen value before answer f =
    (f.data_text ≡ f.persisted_value)
    × (((f.persisted_value ≡ value) × ((value ≡ before) ⊎ (is_saved answer ≡ true)))
        ⊎ ((f.persisted_value ≡ before) × (is_saved answer ≡ false) × (truthy f.save_error ≡ true)))

module _ {S : Type 0} (translator : String → String) (api : SettingApi S String)
    (worded : truthy (translator "Unable to save setting") ≡ true) where
  error_text-truthy :
      (message : String) → truthy (error_text message (translator "Unable to save setting")) ≡ true
  error_text-truthy message =
      if_cases (λ (m : String). truthy m ≡ true) (truthy message) (λ h. h) (λ h. worded)

  network_updated-IsChosen :
      (value : String) (r : S × Answer) (f : Field)
      → IsChosen value f.persisted_value r.1 (network_updated translator api value r f).0
  network_updated-IsChosen value (s, saved) f = (refl, inl (refl, inr refl))
  network_updated-IsChosen value (s, refused) f =
      (refl, inr (refl, refl, error_text-truthy (translator "Unable to save setting")))
  network_updated-IsChosen value (s, thrown message) f =
      (refl, inr (refl, refl, error_text-truthy message))

  -- Where no save runs and the field saves at once, after a choice the buttons show what the field takes for saved.
  -- That is the chosen value, if it was saved before or the save answers true; otherwise it is the one before, and
  -- an error is shown, if its text is not empty in the page's language.
  pub update_field_radio-IsChosen :
      (value : String) (f : Field) (s : S)
      → f.saving ≡ false
      → f.disable_onblur ≡ false
      → IsChosen value f.persisted_value
          (api.save value s).1
          (update_field_radio translator api value (f, s)).0
  unfolding update_field_radio update_network
  update_field_radio-IsChosen value f s free direct =
      let Q : Field × S → Type 0 = λ x. IsChosen value f.persisted_value (api.save value s).1 x.0 in
      let chosen = record f { data_text = value; internal_form_value = value } in
      if_cases Q ((value == f.persisted_value) || f.disable_onblur)
        (λ stay.
          let same = eq_of_beq value f.persisted_value (ground (arith, stay, direct)) in
          (same, inl (sym same, inl same)))
        (λ go.
          if_cases Q (f.saving || (value == f.persisted_value))
            (λ busy. absurd (false≢true (sym (ground (arith, free, go)) ∙ busy)))
            (λ ready. network_updated-IsChosen value (api.save value s) chosen))
