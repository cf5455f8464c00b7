-- ===== src/DeviceList/InSync.antt =====
-- The rows of the page and the devices of the server.
use gatesentry.Shared.{
  ap₂, ℕ, String, true, false, none, some, ◌≡◌, ◌∙◌, sym, ap, ◌⊎◌, inl, not, ◌==◌, if◌then◌else◌,
  truthy, ◌<>◌, map, filter, String_eq, ℕ_eq,
}
use gatesentry.DeviceList.{
  DeviceRow, answered, DevicesApi, Page, format_device, show_success, is_ok, get_token, loaded_page,
  load_devices, stop_removing, removed, remove_chosen, confirm_removal,
}

-- A removal that succeeds removes the devices of an id, any other changes nothing.
pub record IsSound {S : Type 0} (api : DevicesApi S) : Type 0 where
  pub removes :
      (id token text : String) (status : ℕ) (body : Unit {0} ⊎ String) (s : S)
      → (api.remove id token s).1 ≡ answered status text body
      → is_ok status ≡ true
      → api.held (api.remove id token s).0 ≡ filter (λ d. not (d.id == id)) (api.held s)

module _ {S : Type 0} (api : DevicesApi S) (now : ℕ) where
  -- A load that the server answers with its devices shows them and no error.
  load_devices-answered :
      (p : Page) (s : S) (text : String)
      → truthy (get_token p) ≡ true
      → api.list (get_token p) s ≡ answered 200 text (inl (api.held s))
      → load_devices api now (p, s) ≡ (
        record p {
          devices = map (format_device now) (api.held s);
          error = "";
          loading = false;
          loaded = true;
        },
        s,
      )
  unfolding load_devices
  load_devices-answered p s text known answer =
      ap₂ (λ has_token reply. (loaded_page api now has_token reply p, s)) known answer

  -- A removal that the server accepts, when its devices can be listed afterwards, closes the dialog and shows
  -- exactly the devices that it held before, in their order, without those of the removed id, and no error.
  pub confirm_removal_lem :
      (p : Page) (s t : S) (row : DeviceRow) (status : ℕ) (text text' : String)
      (body : Unit {0} ⊎ String)
      → IsSound api
      → p.removing ≡ false
      → p.pending_removal ≡ some row
      → truthy (get_token p) ≡ true
      → api.remove row.device.id (get_token p) s ≡ (t, answered status text body)
      → is_ok status ≡ true
      → api.list (get_token p) t ≡ answered 200 text' (inl (api.held t))
      → ((confirm_removal api now (p, s)).0.devices
          ≡ map (format_device now) (filter (λ d. not (d.id == row.device.id)) (api.held s)))
        × ((confirm_removal api now (p, s)).0.error ≡ "")
        × ((confirm_removal api now (p, s)).0.pending_removal ≡ none)
        × ((confirm_removal api now (p, s)).1 ≡ t)
  unfolding confirm_removal show_success
  confirm_removal_lem p s t row status text text' body sound free chosen known accepted ok listed =
      let kept : api.held t ≡ filter (λ d. not (d.id == row.device.id)) (api.held s) =
        ap (λ r. api.held r.0) (sym accepted)
        ∙ sound.removes row.device.id (get_token p) text status body s (ap (λ r. r.1) accepted)
            ok in
      let shown_page =
        show_success ("\"" <> (row.display_name <> "\" removed"))
          (record p { pending_removal = none; error = "" }) in
      let whole : confirm_removal api now (p, s) ≡ (
        record shown_page {
          devices = map (format_device now) (api.held t);
          error = "";
          loading = false;
          loaded = true;
          removing = false;
        },
        t,
      ) =
        ap (λ b. if b then (p, s) else remove_chosen api now p.pending_removal (p, s)) free
        ∙ (ap (λ o. remove_chosen api now o (p, s)) chosen
            ∙ (ap (λ r. removed api now row r p) accepted
                ∙ (ap
                      (λ b.
                        if b
                        then stop_removing api now (load_devices api now (shown_page, t))
                        else (
                          record p {
                            error = "Failed to remove device: " <> text;
                            removing = false;
                          },
                          t,
                        ))
                      ok
                    ∙ ap (stop_removing api now)
                        (load_devices-answered shown_page t text' known listed)))) in
      (
        ap (λ (x : Page × S). x.0.devices) whole ∙ ap (map (format_device now)) kept,
        ap (λ (x : Page × S). x.0.error) whole,
        ap (λ (x : Page × S). x.0.pending_removal) whole,
        ap (λ (x : Page × S). x.1) whole,
      )
