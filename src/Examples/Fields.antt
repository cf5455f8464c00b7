-- ===== src/Examples/Fields.antt =====
-- The settings' fields on concrete inputs.
use gatesentry.Shared.{
  String, Bool, true, false, none, some, [], ◌∷◌, ◌≡◌, refl, inl, map_get, String_eq,
}
use gatesentry.SettingInputs.{
  thrown, saved, SettingApi, Field, Settings, GeneralField, update_field_radio, change_setting,
  send_settings,
}
use gatesentry.SettingInputs.Chosen.{IsChosen, update_field_radio-IsChosen}
use gatesentry.SettingInputs.Stale.{send_settings-change_setting}

abbrev words : String → String
words s = s

-- A server that holds one value and takes every save
abbrev obliging : (V : Type 0) → SettingApi V V
obliging V = record { load = λ s. inl s; save = λ v s. (v, saved); held = λ s. s }

-- A server that refuses every save
abbrev refusing : SettingApi String String
refusing = record { load = λ s. inl s; save = λ v s. (s, thrown "HTTP 500"); held = λ s. s }

abbrev strictness : Field
strictness = record {
  data_text = "2000";
  persisted_value = "2000";
  internal_form_value = "2000";
  loaded = true;
  saving = false;
  save_error = "";
  disable_onblur = false;
  notices = [];
}

update_field_radio-IsChosen_example :
    IsChosen "500" "2000"
      (thrown "HTTP 500")
      (update_field_radio words refusing "500" (strictness, "2000")).0
update_field_radio-IsChosen_example =
    update_field_radio-IsChosen words refusing refl "500" strictness "2000" refl refl

abbrev general : Settings
general = ("log_location", "./log.db") ∷ []

abbrev general_field : String → Bool → GeneralField
general_field key button = record {
  key_name = key;
  settings = some general;
  changed = none;
  loading = false;
  saving = false;
  disable_onblur = button;
  signed_out = false;
  notices = [];
}

send_settings-change_setting_example :
    map_get
      (send_settings words (obliging Settings) (
        change_setting words (obliging Settings) "new" (
          general_field "admin_password" true,
          (change_setting words
              (obliging Settings)
              "/var/log.db"
              (general_field "log_location" false, general)).1,
        ))).1
      "log_location"
    ≡ some "./log.db"
send_settings-change_setting_example =
    send_settings-change_setting words (obliging Settings) (general_field "log_location" false)
      (general_field "admin_password" true) general general "./log.db" "/var/log.db" "new"
      (λ next t x e h. h) refl refl refl refl refl refl refl refl refl
