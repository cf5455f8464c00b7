-- ===== src/DeviceDialog/Links.antt =====
-- What the dialog shows after a link.
use gatesentry.Shared.{
  String, true, false, some, List, [], ◌∷◌, ◌≡◌, ◌∙◌, sym, ap, subst, inl, inr, ◌||◌, not, ◌==◌,
  if◌then◌else◌, if_cases, truthy, filter, map, All, String_eq, arith, Bool-cases,
}
use gatesentry.DeviceDialog.{
  TailscalePeer, answered, DialogApi, Dialog, available_tailscale_peers, dispatch, peers_loaded,
  load_tailscale_peers, linked, link_tailscale_peer,
}

-- A link that succeeds maps its peer to the device.
pub record IsSound {S : Type 0} (api : DialogApi S) : Type 0 where
  pub links :
      (device node : String) (s t : S)
      → api.link device node s ≡ (t, answered tt)
      → api.held t
        ≡ map
            (λ peer.
              if peer.node_id == node then record peer { mapped_device_id = device } else peer)
            (api.held s)

-- Of the peers that are mapped so, none that is free has the id of the node.
free_peers :
    (device node : String) (peers : List TailscalePeer)
    → truthy device ≡ true
    → All
        (λ peer. (peer.node_id == node) ≡ false)
        (filter
          (λ peer. not (truthy peer.mapped_device_id))
          (map
            (λ peer.
              if peer.node_id == node then record peer { mapped_device_id = device } else peer)
            peers))
free_peers device node [] named = tt
free_peers device node (peer ∷ peers) named =
    let mapped = record peer { mapped_device_id = device } in
    let rest =
      filter (λ p. not (truthy p.mapped_device_id))
        (map (λ p. if p.node_id == node then record p { mapped_device_id = device } else p)
          peers) in
    let others : All (λ p. (p.node_id == node) ≡ false) rest = free_peers device node peers named in
    elim (Bool-cases (peer.node_id == node)) [
      | inl same ↦
          subst
            (λ b.
              All (λ p. (p.node_id == node) ≡ false)
                (if not (truthy (if b then mapped else peer).mapped_device_id)
                  then (if b then mapped else peer) ∷ rest
                  else rest))
            (sym same)
            (subst
              (λ c. All (λ p. (p.node_id == node) ≡ false) (if not c then mapped ∷ rest else rest))
              (sym named) others)
      | inr other ↦
          subst
            (λ b.
              All (λ p. (p.node_id == node) ≡ false)
                (if not (truthy (if b then mapped else peer).mapped_device_id)
                  then (if b then mapped else peer) ∷ rest
                  else rest))
            (sym other)
            (if_cases (All (λ p. (p.node_id == node) ≡ false)) (not (truthy peer.mapped_device_id))
              (λ free. (other, others)) (λ taken. others))
    ]

module _ {S : Type 0} (api : DialogApi S) where
  -- The dialog after a link that was accepted and peers that were found.
  abbrev after_link : Dialog → List TailscalePeer → Dialog
  after_link d peers = dispatch "tailscaleChanged" (record d {
    selected_peer_node_id = "";
    tailscale_notice = "Tailscale peer linked.";
    tailscale_state = some "connected";
    tailscale_peers = peers;
    linked_tailscale_nodes = filter (λ peer. peer.mapped_device_id == d.device.id) peers;
    tailscale_loaded = true;
    tailscale_error = "";
    tailscale_loading = false;
    tailscale_saving = false;
  })

  link-after_link :
      (d : Dialog) (s t : S)
      → truthy d.selected_peer_node_id ≡ true
      → d.tailscale_saving ≡ false
      → api.link d.device.id d.selected_peer_node_id s ≡ (t, answered tt)
      → api.peers t ≡ answered (record { state = "connected"; peers = api.held t })
      → link_tailscale_peer api (d, s) ≡ (after_link d (api.held t), t)
  unfolding link_tailscale_peer load_tailscale_peers
  link-after_link d s t chosen free accepted found =
      let go : (not (truthy d.selected_peer_node_id) || d.tailscale_saving) ≡ false =
        ground (arith, chosen, free) in
      let cleared = record d { tailscale_error = ""; tailscale_notice = "" } in
      let told = record d {
        tailscale_error = "";
        selected_peer_node_id = "";
        tailscale_notice = "Tailscale peer linked.";
      } in
      ap
        (λ b.
          if b then (d, s) else linked api (api.link d.device.id d.selected_peer_node_id s) cleared)
        go
      ∙ (ap (λ r. linked api r cleared) accepted
          ∙ ap
              (λ reply. (
                record (dispatch "tailscaleChanged" (peers_loaded api reply told)) {
                  tailscale_saving = false;
                },
                t,
              ))
              found)

  -- After a link that the server accepts, when Tailscale is connected, the dialog lists as linked the peers
  -- that the server held before, the chosen one now mapped to the device, that are mapped to it; it offers
  -- no peer of the chosen id any more, shows no error and is ready for the next link.
  pub link_tailscale_peer_lem :
      (d : Dialog) (s t : S)
      → IsSound api
      → truthy d.device.id ≡ true
      → truthy d.selected_peer_node_id ≡ true
      → d.tailscale_saving ≡ false
      → api.link d.device.id d.selected_peer_node_id s ≡ (t, answered tt)
      → api.peers t ≡ answered (record { state = "connected"; peers = api.held t })
      → ((link_tailscale_peer api (d, s)).0.linked_tailscale_nodes
          ≡ filter
              (λ peer. peer.mapped_device_id == d.device.id)
              (map
                (λ peer.
                  if peer.node_id == d.selected_peer_node_id
                  then record peer { mapped_device_id = d.device.id }
                  else peer)
                (api.held s)))
        × All
            (λ peer. (peer.node_id == d.selected_peer_node_id) ≡ false)
            (available_tailscale_peers (link_tailscale_peer api (d, s)).0)
        × ((link_tailscale_peer api (d, s)).0.tailscale_error ≡ "")
        × ((link_tailscale_peer api (d, s)).0.tailscale_saving ≡ false)
  unfolding available_tailscale_peers
  link_tailscale_peer_lem d s t sound named chosen free accepted found =
      let whole = link-after_link d s t chosen free accepted found in
      let held = sound.links d.device.id d.selected_peer_node_id s t accepted in
      (
        ap (λ (x : Dialog × S). x.0.linked_tailscale_nodes) whole
            ∙ ap (filter (λ peer. peer.mapped_device_id == d.device.id)) held,
        subst
            (λ (x : Dialog × S).
              All (λ peer. (peer.node_id == d.selected_peer_node_id) ≡ false)
                (filter (λ peer. not (truthy peer.mapped_device_id)) x.0.tailscale_peers))
            (sym whole)
            (subst
              (λ peers.
                All (λ peer. (peer.node_id == d.selected_peer_node_id) ≡ false)
                  (filter (λ peer. not (truthy peer.mapped_device_id)) peers))
              (sym held) (free_peers d.device.id d.selected_peer_node_id (api.held s) named)),
        ap (λ (x : Dialog × S). x.0.tailscale_error) whole,
        ap (λ (x : Dialog × S). x.0.tailscale_saving) whole,
      )
