-- ===== src/Examples/Devices.antt =====
-- The list of devices on a small server.
use gatesentry.Shared.{
  true, false, none, some, List, [], ◌∷◌, ◌≡◌, refl, inl, map, filter, not, ◌==◌, String_eq, ℕ_eq,
}
use gatesentry.DeviceList.{Device, DevicesApi, Page, answered, format_device, confirm_removal}
use gatesentry.DeviceList.InSync.{IsSound, confirm_removal_lem}

abbrev laptop : Device
laptop = record {
  id = "d1";
  display_name = "laptop";
  dns_name = "";
  manual_name = "";
  ipv4 = "192.0.2.21";
  ipv6 = "";
  last_seen = none;
  online = true;
  tailscale_nodes = [];
}

abbrev printer : Device
printer = record laptop { id = "d2"; display_name = "printer"; online = false }

-- A server that keeps a list.
abbrev keeping : DevicesApi (List Device)
keeping = record {
  list = λ token s. answered 200 "" (inl s);
  remove = λ id token s. (filter (λ (d : Device). not (d.id == id)) s, answered 204 "" (inl tt));
  held = λ s. s;
}

keeping-IsSound : IsSound keeping
keeping-IsSound = record { removes = λ id token text status body s e ok. refl }

abbrev shown : Page
shown = record {
  devices = map (format_device 0) (laptop ∷ printer ∷ []);
  loading = false;
  loaded = true;
  error = "";
  success = "";
  selected_device = none;
  detail_open = false;
  pending_removal = some (format_device 0 laptop);
  removing = false;
  notice_timer = false;
  stored = some "t1";
}

confirm_removal_lem_example :
    ((confirm_removal keeping 0 (shown, laptop ∷ printer ∷ [])).0.devices
      ≡ format_device 0 printer ∷ [])
    × ((confirm_removal keeping 0 (shown, laptop ∷ printer ∷ [])).0.error ≡ "")
    × ((confirm_removal keeping 0 (shown, laptop ∷ printer ∷ [])).0.pending_removal ≡ none)
    × ((confirm_removal keeping 0 (shown, laptop ∷ printer ∷ [])).1 ≡ printer ∷ [])
unfolding format_device
confirm_removal_lem_example =
    confirm_removal_lem keeping 0 shown (laptop ∷ printer ∷ []) (printer ∷ [])
      (format_device 0 laptop) 204 "" "" (inl tt) keeping-IsSound refl refl refl refl refl refl
