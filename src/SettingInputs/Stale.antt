-- ===== src/SettingInputs/Stale.antt =====
-- Two fields of the general settings.
use gatesentry.Shared.{
  String, true, false, some, ◌≡◌, ◌∙◌, refl, ap, ◌||◌, ◌==◌, if◌then◌else◌, if_cases, map_get,
  map_set, map_get-map_set, String_eq,
}
use gatesentry.SettingInputs.{
  Answer, saved, refused, thrown, SettingApi, Settings, GeneralField, load_settings, settings_saved,
  save_settings, value_of, settings_changed, change_setting, send_settings,
}

module _ {S : Type 0} (translator : String → String) (api : SettingApi S Settings) where
  server-settings_saved :
      (r : S × Answer) (f : GeneralField) → (settings_saved translator api r f).1 ≡ r.0
  unfolding load_settings
  server-settings_saved (s, saved) f =
      if_cases (λ (x : GeneralField × S). x.1 ≡ s)
        ((f.key_name == "admin_password") || (f.key_name == "admin_username")) (λ out. refl)
        (λ stay. refl)
  server-settings_saved (s, refused) f = refl
  server-settings_saved (s, thrown message) f = refl

  -- The server after a change of one value
  server-change_setting :
      (value : String) (f : GeneralField) (s : S) (settings : Settings)
      → f.settings ≡ some settings
      → f.disable_onblur ≡ false
      → value_of (map_get settings f.key_name) value ≡ false
      → (change_setting translator api value (f, s)).1
        ≡ (api.save (map_set settings f.key_name value) s).0
  unfolding change_setting save_settings
  server-change_setting value f s settings known direct new =
      let next = map_set settings f.key_name value in
      let sending = save_settings translator api next (record f { changed = some next }, s) in
      ap (λ o. (settings_changed translator api o value (f, s)).1) known
      ∙ (ap
            (λ b.
              (if b
                then (f, s)
                else if f.disable_onblur
                then (record f { changed = some next }, s)
                else sending).1)
            new
          ∙ (ap (λ b. (if b then (record f { changed = some next }, s) else sending).1) direct
              ∙ server-settings_saved (api.save next s) (record f { changed = some next })))

  -- The server after a change of one value in a field that saves by its dialog's button
  server-send_settings :
      (value : String) (f : GeneralField) (s : S) (settings : Settings)
      → f.settings ≡ some settings
      → f.disable_onblur ≡ true
      → value_of (map_get settings f.key_name) value ≡ false
      → (send_settings translator api (change_setting translator api value (f, s))).1
        ≡ (api.save (map_set settings f.key_name value) s).0
  unfolding change_setting save_settings send_settings
  server-send_settings value f s settings known button new =
      let next = map_set settings f.key_name value in
      let sending = save_settings translator api next (record f { changed = some next }, s) in
      let send : GeneralField × S → S = λ x. (send_settings translator api x).1 in
      ap (λ o. send (settings_changed translator api o value (f, s))) known
      ∙ (ap
            (λ b. send (
              if b
              then (f, s)
              else if f.disable_onblur
              then (record f { changed = some next }, s)
              else sending))
            new
          ∙ (ap (λ b. send (if b then (record f { changed = some next }, s) else sending)) button
              ∙ server-settings_saved (api.save next s) (record f { changed = some next })))

  -- Of two fields that were loaded from the same settings, for different keys, one saves when it is left and the
  -- other by a button, as the log's place and the password do. The server keeps a value of the first key as it is
  -- sent. If the second save succeeds, it takes the first one back: the server holds the first key's old value.
  pub send_settings-change_setting :
      (first second : GeneralField) (s : S) (settings : Settings) (old v w : String)
      → ((next : Settings) (t : S) (x : String)
          → (api.save next t).1 ≡ saved
          → map_get next first.key_name ≡ some x
          → map_get (api.held (api.save next t).0) first.key_name ≡ some x)
      → first.settings ≡ some settings
      → second.settings ≡ some settings
      → first.disable_onblur ≡ false
      → second.disable_onblur ≡ true
      → (second.key_name == first.key_name) ≡ false
      → map_get settings first.key_name ≡ some old
      → (v == old) ≡ false
      → value_of (map_get settings second.key_name) w ≡ false
      → (api.save
          (map_set settings second.key_name w)
          (api.save (map_set settings first.key_name v) s).0).1
        ≡ saved
      → map_get
          (api.held
            (send_settings translator api (
              change_setting translator api w
                (second, (change_setting translator api v (first, s)).1))).1)
          first.key_name
        ≡ some old
  send_settings-change_setting first second s settings old v w keeps known known' direct button
        apart held new new' stored =
      let one =
        server-change_setting v first s settings known direct (ap (λ o. value_of o v) held ∙ new) in
      let two =
        server-send_settings w second (api.save (map_set settings first.key_name v) s).0 settings
          known' button new' in
      ap
        (λ t.
          map_get
            (api.held
              (send_settings translator api (change_setting translator api w (second, t))).1)
            first.key_name)
        one
      ∙ (ap (λ t. map_get (api.held t) first.key_name) two
          ∙ keeps (map_set settings second.key_name w)
              (api.save (map_set settings first.key_name v) s).0 old stored
              (map_get-map_set settings second.key_name w first.key_name
                ∙ (ap (λ b. if b then some w else map_get settings first.key_name) apart ∙ held)))
