-- ===== src/DeviceDialog.antt =====
-- The labels, the policy and the Tailscale links of the device dialog,
-- ui/src/routes/devices/devicedetail.svelte; ActivityPoll has its polling. The server is a parameter.
-- A handler gives the dialog after its last `await`.
pub mod Links
use gatesentry.Shared.{
  ℕ, String, Bool, true, false, Option, none, some, List, [], ◌∷◌, ◌++◌, ◌⊎◌, inl, inr, ◌&&◌, ◌||◌,
  not, ◌==◌, if◌then◌else◌, truthy, or_else, ◌<>◌, decimal, join, filter, non_empty, length,
  String_eq, ℕ_eq,
}

pub record TailscalePeer : Type 0 where
  pub node_id : String
  pub name : String
  pub dns_name : String
  pub mapped_device_id : String

pub record PeerState : Type 0 where
  pub state : String
  pub peers : List TailscalePeer

-- A request fails with a message, is refused with a status, the text of the response and the error that
-- its JSON names, or is answered.
pub data Reply (A : Type 0) : Type 0 where
  failed : String → Reply A
  refused : ℕ → String → Option String → Reply A
  answered : A → Reply A

pub record Device : Type 0 where
  pub id : String
  pub manual_name : String
  pub owner : String
  pub category : String
  pub tailscale_nodes : List TailscalePeer

-- The reply on the policy names the assigned policy, if there is one.
pub record DialogApi (S : Type 0) : Type 0 where
  pub policy : (device : String) → S → Reply (Option String)
  pub groups : S → Reply (List String)
  pub peers : S → Reply PeerState
  pub link : (device node : String) → S → S × Reply (Unit {0})
  pub unlink : (device node : String) → S → S × Reply (Unit {0})
  pub name : (device name owner category : String) → S → S × Reply (Unit {0})
  pub assign : (device group : String) → S → S × Reply (Unit {0})
  pub held : S → List TailscalePeer

pub record Dialog : Type 0 where
  pub device : Device
  pub manual_name : String
  pub owner : String
  pub category : String
  pub saving : Bool
  pub error : String
  pub policy_view : Option (Option String)
  pub policy_loading : Bool
  pub policy_error : String
  pub groups : List String
  pub selected_group : String
  pub assignment_saving : Bool
  pub assignment_error : String
  pub assignment_saved : Bool
  pub tailscale_peers : List TailscalePeer
  pub tailscale_state : Option String
  pub linked_tailscale_nodes : List TailscalePeer
  pub selected_peer_node_id : String
  pub tailscale_loading : Bool
  pub tailscale_loaded : Bool
  pub tailscale_saving : Bool
  pub tailscale_error : String
  pub tailscale_notice : String
  pub pending_unlink : Option TailscalePeer
  pub dispatched : List String  -- the events that the parent received

unfoldable pub read_error_message : ℕ → String → Option String → String
read_error_message status text parsed =
    or_else parsed (or_else (some text) ("Request failed (" <> (decimal status <> ")")))

abbrev pub outcome {ℓ} : {A : Type 0} {B : Type ℓ} → Reply A → (A → B) → (String → B) → B
outcome (failed message) ok wrong = wrong message
outcome (refused status text parsed) ok wrong = wrong (read_error_message status text parsed)
outcome (answered a) ok wrong = ok a

-- `$: availableTailscalePeers`
unfoldable pub available_tailscale_peers : Dialog → List TailscalePeer
available_tailscale_peers d = filter (λ peer. not (truthy peer.mapped_device_id)) d.tailscale_peers

unfoldable pub request_unlink : TailscalePeer → Dialog → Dialog
request_unlink peer d = record d { pending_unlink = some peer }

unfoldable pub tailscale_state_kind : String → String
tailscale_state_kind state =
    if state == "connected"
    then "success"
    else if state == "degraded" || state == "connecting"
    then "warning"
    else if state == "unavailable" || state == "stopped"
    then "error"
    else "info"

unfoldable pub tailscale_state_title : String → String
tailscale_state_title state =
    if state == "connected"
    then "Tailscale connected"
    else if state == "degraded"
    then "Tailscale data degraded"
    else if state == "unavailable"
    then "Tailscale unavailable"
    else if state == "connecting"
    then "Tailscale connecting"
    else if state == "disabled"
    then "Tailscale disabled"
    else "Tailscale status"

unfoldable pub peer_name : TailscalePeer → String
peer_name peer = or_else (some peer.name) (or_else (some peer.dns_name) peer.node_id)

unfoldable pub confidence_tag_type : String → String
confidence_tag_type confidence =
    if confidence == "high"
    then "green"
    else if confidence == "medium"
    then "teal"
    else if confidence == "low"
    then "magenta"
    else "red"

unfoldable pub confidence_label : String → String
confidence_label confidence =
    if confidence == "high"
    then "High confidence"
    else if confidence == "medium"
    then "Medium confidence"
    else if confidence == "low"
    then "Low confidence"
    else "No protection signal"

-- What the summary reads of a policy.
pub record Policy : Type 0 where
  pub blocked_categories : List String
  pub blocked_domains : List String
  pub allowed_domains : List String
  pub rule_count : ℕ
  pub safe_search : Bool

-- `n one` or `n more`, if n is not 0
abbrev pub part : ℕ → String → String → List String
part n one more = if n == 0 then [] else (decimal n <> (if n == 1 then one else more)) ∷ []

abbrev pub policy_parts : Policy → List String
policy_parts p =
    part (length p.blocked_categories) " blocked category" " blocked categories"
    ++ (part (length p.blocked_domains) " blocked domain" " blocked domains"
        ++ (part (length p.allowed_domains) " allowed domain" " allowed domains"
            ++ (part p.rule_count " rule" " rules"
                ++ (if p.safe_search then "safe search" ∷ [] else []))))

unfoldable pub policy_summary : Option Policy → String
policy_summary none = ""
policy_summary (some p) =
    if non_empty (policy_parts p) then join ", " (policy_parts p) else "blocks nothing of its own"

-- `dispatch(name)`
abbrev pub dispatch : String → Dialog → Dialog
dispatch name d = record d { dispatched = d.dispatched ++ name ∷ [] }

module _ {S : Type 0} (api : DialogApi S) where
  unfoldable pub load_policy_view : Dialog × S → Dialog × S
  load_policy_view (d, s) = (
    outcome (api.policy d.device.id s)
        (λ assignment. record d {
          policy_view = some assignment;
          selected_group = or_else assignment "";
          policy_error = "";
          policy_loading = false;
        })
        (λ message. record d { policy_error = message; policy_loading = false }),
    s,
  )

  unfoldable pub load_groups : Dialog × S → Dialog × S
  load_groups (d, s) = (
    outcome (api.groups s) (λ groups. record d { groups = groups })
        (λ message. record d { policy_error = or_else (some d.policy_error) message }),
    s,
  )

  abbrev pub peers_read : PeerState → Dialog → Dialog
  peers_read found d =
      if found.state == "connected"
      then record d {
        tailscale_state = some found.state;
        tailscale_peers = found.peers;
        linked_tailscale_nodes = filter (λ peer. peer.mapped_device_id == d.device.id) found.peers;
        tailscale_loaded = true;
        tailscale_error = "";
        tailscale_loading = false;
      }
      else record d {
        tailscale_state = some found.state;
        tailscale_peers = [];
        tailscale_loaded = true;
        tailscale_error = "";
        tailscale_loading = false;
      }

  abbrev pub peers_loaded : Reply PeerState → Dialog → Dialog
  peers_loaded reply d =
      outcome reply (λ found. peers_read found d)
        (λ message. record d {
          tailscale_state = none;
          tailscale_peers = [];
          tailscale_error = message;
          tailscale_loading = false;
        })

  unfoldable pub load_tailscale_peers : Dialog × S → Dialog × S
  load_tailscale_peers (d, s) = (peers_loaded (api.peers s) d, s)

  -- After the request to link or unlink: the peers are loaded and the parent is told.
  abbrev pub links_changed : Dialog × S → Dialog × S
  links_changed ds =
      let (d, s) = load_tailscale_peers ds in
      (record (dispatch "tailscaleChanged" d) { tailscale_saving = false }, s)

  abbrev pub linked : S × Reply (Unit {0}) → Dialog → Dialog × S
  linked (s, reply) d =
      outcome reply
        (λ done.
          links_changed (
            record d { selected_peer_node_id = ""; tailscale_notice = "Tailscale peer linked." },
            s,
          ))
        (λ message. (record d { tailscale_error = message; tailscale_saving = false }, s))

  unfoldable pub link_tailscale_peer : Dialog × S → Dialog × S
  link_tailscale_peer (d, s) =
      if not (truthy d.selected_peer_node_id) || d.tailscale_saving
      then (d, s)
      else linked (api.link d.device.id d.selected_peer_node_id s)
          (record d { tailscale_error = ""; tailscale_notice = "" })

  abbrev pub unlinked : TailscalePeer → S × Reply (Unit {0}) → Dialog → Dialog × S
  unlinked peer (s, reply) d =
      outcome reply
        (λ done. links_changed (
          record d {
            linked_tailscale_nodes =
                filter (λ node. not (node.node_id == peer.node_id)) d.linked_tailscale_nodes;
            pending_unlink = none;
            tailscale_notice = "Tailscale peer unlinked.";
          },
          s,
        ))
        (λ message. (record d { tailscale_error = message; tailscale_saving = false }, s))

  abbrev pub unlink_chosen : Option TailscalePeer → Dialog × S → Dialog × S
  unlink_chosen none ds = ds
  unlink_chosen (some peer) (d, s) =
      unlinked peer (api.unlink d.device.id peer.node_id s)
        (record d { tailscale_error = ""; tailscale_notice = "" })

  unfoldable pub confirm_unlink : Dialog × S → Dialog × S
  confirm_unlink (d, s) =
      if d.tailscale_saving then (d, s) else unlink_chosen d.pending_unlink (d, s)

  abbrev pub named : S × Reply (Unit {0}) → Dialog → Dialog × S
  named (s, reply) d =
      outcome reply (λ done. (record (dispatch "saved" d) { saving = false }, s))
        (λ message. (record d { error = message; saving = false }, s))

  unfoldable pub save : Dialog × S → Dialog × S
  save (d, s) =
      if d.saving
      then (d, s)
      else named (api.name d.device.id d.manual_name d.owner d.category s) (record d { error = "" })

  abbrev pub assigned : S × Reply (Unit {0}) → Dialog → Dialog × S
  assigned (s, reply) d =
      outcome reply
        (λ done.
          let (e, t) = load_policy_view (d, s) in
          (record e { assignment_saved = true; assignment_saving = false }, t))
        (λ message. (record d { assignment_error = message; assignment_saving = false }, s))

  unfoldable pub save_assignment : Dialog × S → Dialog × S
  save_assignment (d, s) =
      if d.assignment_saving
      then (d, s)
      else assigned (api.assign d.device.id d.selected_group s)
          (record d { assignment_error = ""; assignment_saved = false })

  -- The reactive statement, when the dialog opens for another device.
  unfoldable pub open_device : Device → Dialog × S → Dialog × S
  open_device device (d, s) = load_tailscale_peers (
      load_groups (
        load_policy_view (
          record d {
            device = device;
            manual_name = device.manual_name;
            owner = device.owner;
            category = device.category;
            linked_tailscale_nodes = device.tailscale_nodes;
          },
          s,
        )))
