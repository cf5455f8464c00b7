-- ===== src/SettingInputs.antt =====
-- The fields that save one setting: ui/src/components/connectedSettingInput.svelte, and
-- ui/src/components/connectedGeneralSettingInputs.svelte, whose setting holds the values of many fields.
-- The server is a parameter, and `onSaved` is its default, which does nothing. A handler gives the field after its last `await`.
pub mod Chosen
pub mod Stale
use gatesentry.Shared.{
  String, Bool, true, false, Option, none, some, List, [], ◌∷◌, ◌⊎◌, inl, inr, ◌||◌, not, ◌==◌,
  if◌then◌else◌, or_else, map_get, map_set, String_eq,
}
use gatesentry.Notifications.{Notification}
use gatesentry.Notifications as Notifications
use gatesentry.Notifications.Build.{create_notification_success, create_notification_error}
use gatesentry.ListEditors.{error_text}

-- A save answers true or false, or throws.
pub data Answer : Type 0 where
  saved refused : Answer
  thrown : String → Answer

-- A setting of type `V` on the server
pub record SettingApi (S V : Type 0) : Type 0 where
  pub load : S → V ⊎ String
  pub save : V → S → S × Answer
  pub held : S → V

module _ (translator : String → String) where
  abbrev pub success_notice : List Notification → List Notification
  success_notice = Notifications.add (
      create_notification_success translator (record {
        kind = none;
        title = none;
        subtitle = some (translator "Setting updated");
        timeout = none;
      }))

  abbrev pub error_notice : String → List Notification → List Notification
  error_notice message = Notifications.add (
      create_notification_error translator
        (record { kind = none; title = none; subtitle = some message; timeout = none }))

pub record Field : Type 0 where
  pub data_text : String  -- data
  pub persisted_value : String
  pub internal_form_value : String
  pub loaded : Bool
  pub saving : Bool
  pub save_error : String
  pub disable_onblur : Bool
  pub notices : List Notification  -- the notification store

unfoldable pub update_internal_value : String → Field → Field
update_internal_value value f = record f { internal_form_value = value }

module _ {S : Type 0} (translator : String → String) (api : SettingApi S String) where
  abbrev pub value_loaded : String ⊎ String → Field → Field
  value_loaded (inl value) f = record f {
    data_text = value;
    persisted_value = value;
    internal_form_value = value;
    loaded = true;
  }
  value_loaded (inr message) f = record f {
    save_error = translator "Unable to load setting";
    loaded = true;
  }

  -- `onMount`
  unfoldable pub load_api_data : Field × S → Field × S
  load_api_data (f, s) = (value_loaded (api.load s) f, s)

  -- The catch block of `updateNetwork`
  abbrev pub rolled_back : String → Field → Field
  rolled_back message f = record f {
    data_text = f.persisted_value;
    internal_form_value = f.persisted_value;
    save_error = message;
    notices = error_notice translator message f.notices;
    saving = false;
  }

  abbrev pub network_updated : String → S × Answer → Field → Field × S
  network_updated value (s, saved) f = (
    record f {
      persisted_value = value;
      data_text = value;
      save_error = "";
      notices = success_notice translator f.notices;
      saving = false;
    },
    s,
  )
  network_updated value (s, refused) f = (
    rolled_back
        (error_text (translator "Unable to save setting") (translator "Unable to save setting")) f,
    s,
  )
  network_updated value (s, thrown message) f =
      (rolled_back (error_text message (translator "Unable to save setting")) f, s)

  unfoldable pub update_network : String → Field × S → Field × S
  update_network value (f, s) =
      if f.saving || (value == f.persisted_value)
      then (f, s)
      else network_updated value (api.save value s) f

  -- `updateField`, with the value of the event
  unfoldable pub update_field : String → Field × S → Field × S
  update_field value (f, s) =
      if (value == f.persisted_value) || f.disable_onblur
      then (record f { internal_form_value = value }, s)
      else update_network value (record f { internal_form_value = value }, s)

  -- `updateFieldRadio`, with the value of the event, to which `bind:selected` has set `data` before
  unfoldable pub update_field_radio : String → Field × S → Field × S
  update_field_radio value (f, s) =
      let chosen = record f { data_text = value; internal_form_value = value } in
      if (value == f.persisted_value) || f.disable_onblur
      then (chosen, s)
      else update_network value (chosen, s)

  unfoldable pub update_data_on_backend : Field × S → Field × S
  update_data_on_backend (f, s) = update_network f.internal_form_value (f, s)

-- `onDestroy`
unfoldable pub destroyed : Field → Field
destroyed f = record f {
  data_text = "";
  persisted_value = "";
  internal_form_value = "";
  loaded = false;
}

-- The values of the general settings by their keys
abbrev pub Settings : Type 0
Settings = List (String × String)

pub record GeneralField : Type 0 where
  pub key_name : String
  pub settings : Option Settings  -- data
  pub changed : Option Settings  -- internalFormValue
  pub loading : Bool
  pub saving : Bool
  pub disable_onblur : Bool
  pub signed_out : Bool  -- whether `store.logout` was called
  pub notices : List Notification  -- the notification store

-- `value === data[keyName]`
abbrev pub value_of : Option String → String → Bool
value_of none value = false
value_of (some old) value = value == old

module _ {S : Type 0} (translator : String → String) (api : SettingApi S Settings) where
  abbrev pub settings_loaded : Settings ⊎ String → GeneralField → GeneralField
  settings_loaded (inl settings) f = record f { settings = some settings; loading = false }
  settings_loaded (inr message) f = record f {
    notices = error_notice translator (translator "Unable to load settings") f.notices;
    loading = false;
  }

  unfoldable pub load_settings : GeneralField × S → GeneralField × S
  load_settings (f, s) = (settings_loaded (api.load s) f, s)

  -- `saving = false`
  abbrev pub stop_saving : GeneralField × S → GeneralField × S
  stop_saving (f, s) = (record f { saving = false }, s)

  abbrev pub settings_saved : S × Answer → GeneralField → GeneralField × S
  settings_saved (s, saved) f =
      let stored = record f { notices = success_notice translator f.notices; changed = none } in
      if (f.key_name == "admin_password") || (f.key_name == "admin_username")
      then (record stored { signed_out = true; saving = false }, s)
      else stop_saving (load_settings (stored, s))
  settings_saved (s, refused) f = (
    record f {
      notices = error_notice translator (translator "Unable to save setting") f.notices;
      saving = false;
    },
    s,
  )
  settings_saved (s, thrown message) f = (
    record f {
      notices = error_notice translator (translator "Unable to save setting") f.notices;
      saving = false;
    },
    s,
  )

  unfoldable pub save_settings : Settings → GeneralField × S → GeneralField × S
  save_settings settings (f, s) = settings_saved (api.save settings s) f

  abbrev pub settings_changed : Option Settings → String → GeneralField × S → GeneralField × S
  settings_changed none value fs = fs
  settings_changed (some settings) value (f, s) =
      let next = map_set settings f.key_name value in
      if value_of (map_get settings f.key_name) value
      then (f, s)
      else if f.disable_onblur
      then (record f { changed = some next }, s)
      else save_settings next (record f { changed = some next }, s)

  -- `updateField`, with the value of the event
  unfoldable pub change_setting : String → GeneralField × S → GeneralField × S
  change_setting value (f, s) = settings_changed f.settings value (f, s)

  abbrev pub send_changed : Option Settings → GeneralField × S → GeneralField × S
  send_changed none fs = fs
  send_changed (some settings) fs = save_settings settings fs

  -- `updateDataOnBackend`
  unfoldable pub send_settings : GeneralField × S → GeneralField × S
  send_settings (f, s) = send_changed f.changed (f, s)
