-- ===== src/Examples/Peers.antt =====
-- The links of the device dialog on a small server.
use gatesentry.Shared.{
  sym, ap, String, true, false, none, some, List, [], ◌∷◌, ◌≡◌, refl, map, ◌==◌, All, String_eq,
  if◌then◌else◌,
}
use gatesentry.DeviceDialog.{
  TailscalePeer, Device, DialogApi, Dialog, answered, available_tailscale_peers,
  link_tailscale_peer,
}
use gatesentry.DeviceDialog.Links.{IsSound, link_tailscale_peer_lem}

abbrev phone_peer : TailscalePeer
phone_peer = record { node_id = "n1"; name = "phone"; dns_name = ""; mapped_device_id = "" }

abbrev tv_peer : TailscalePeer
tv_peer = record { node_id = "n2"; name = "tv"; dns_name = ""; mapped_device_id = "d9" }

abbrev phone : Device
phone = record { id = "d1"; manual_name = ""; owner = ""; category = ""; tailscale_nodes = [] }

abbrev mapped_to : String → String → TailscalePeer → TailscalePeer
mapped_to device node peer =
    if peer.node_id == node then record peer { mapped_device_id = device } else peer

-- A server that keeps the peers.
abbrev peer_server : DialogApi (List TailscalePeer)
peer_server = record {
  policy = λ device s. answered none;
  groups = λ s. answered [];
  peers = λ s. answered (record { state = "connected"; peers = s });
  link = λ device node s. (map (mapped_to device node) s, answered tt);
  unlink = λ device node s. (map (mapped_to "" node) s, answered tt);
  name = λ device name owner category s. (s, answered tt);
  assign = λ device group s. (s, answered tt);
  held = λ s. s;
}

peer_server-IsSound : IsSound peer_server
peer_server-IsSound = record { links = λ device node s t e. ap (λ r. r.0) (sym e) }

abbrev opened_dialog : Dialog
opened_dialog = record {
  device = phone;
  manual_name = "";
  owner = "";
  category = "";
  saving = false;
  error = "";
  policy_view = none;
  policy_loading = false;
  policy_error = "";
  groups = [];
  selected_group = "";
  assignment_saving = false;
  assignment_error = "";
  assignment_saved = false;
  tailscale_peers = phone_peer ∷ tv_peer ∷ [];
  tailscale_state = some "connected";
  linked_tailscale_nodes = [];
  selected_peer_node_id = "n1";
  tailscale_loading = false;
  tailscale_loaded = true;
  tailscale_saving = false;
  tailscale_error = "";
  tailscale_notice = "";
  pending_unlink = none;
  dispatched = [];
}

link_tailscale_peer_lem_example :
    ((link_tailscale_peer peer_server
        (opened_dialog, phone_peer ∷ tv_peer ∷ [])).0.linked_tailscale_nodes
      ≡ record phone_peer { mapped_device_id = "d1" } ∷ [])
    × All
        (λ peer. (peer.node_id == "n1") ≡ false)
        (available_tailscale_peers
          (link_tailscale_peer peer_server (opened_dialog, phone_peer ∷ tv_peer ∷ [])).0)
    × ((link_tailscale_peer peer_server
          (opened_dialog, phone_peer ∷ tv_peer ∷ [])).0.tailscale_error
        ≡ "")
    × ((link_tailscale_peer peer_server
          (opened_dialog, phone_peer ∷ tv_peer ∷ [])).0.tailscale_saving
        ≡ false)
link_tailscale_peer_lem_example =
    link_tailscale_peer_lem peer_server opened_dialog (phone_peer ∷ tv_peer ∷ [])
      (record phone_peer { mapped_device_id = "d1" } ∷ tv_peer ∷ []) peer_server-IsSound refl refl
      refl refl refl
