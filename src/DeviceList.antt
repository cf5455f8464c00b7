-- ===== src/DeviceList.antt =====
-- The list of devices, ui/src/routes/devices/devicelist.svelte. The server is a parameter. A handler
-- gives the page after its last `await`; `now` is the time of the browser in milliseconds.
pub mod InSync
use Prim.Native.Nat.{◌/◌, ◌-◌}
use gatesentry.Shared.{
  ℕ, String, Bool, true, false, Option, none, some, List, [], ◌∷◌, ◌⊎◌, inl, inr, ◌&&◌, ◌||◌, not,
  ◌==◌, if◌then◌else◌, truthy, or_else, ◌<>◌, decimal, join, map, filter, ltb, leb, non_empty,
  String_eq, ℕ_eq,
}

pub record TailscaleNode : Type 0 where
  pub node_id : String
  pub name : String
  pub dns_name : String

pub record Device : Type 0 where
  pub id : String
  pub display_name : String
  pub dns_name : String
  pub manual_name : String
  pub ipv4 : String
  pub ipv6 : String
  pub last_seen : Option ℕ  -- in milliseconds; an empty text is none
  pub online : Bool
  pub tailscale_nodes : List TailscaleNode

pub record DeviceRow : Type 0 where
  pub device : Device
  pub status : String
  pub display_name : String
  pub address_display : String
  pub tailscale_display : String
  pub last_seen_display : String

-- What the server answers: the request fails with a message, or there is a status, the text of the
-- response, and what its JSON says.
pub data Reply (A : Type 0) : Type 0 where
  failed : String → Reply A
  answered : ℕ → String → A ⊎ String → Reply A

pub record DevicesApi (S : Type 0) : Type 0 where
  pub list : (token : String) → S → Reply (List Device)
  pub remove : (id token : String) → S → S × Reply (Unit {0})
  pub held : S → List Device

pub record Page : Type 0 where
  pub devices : List DeviceRow
  pub loading : Bool
  pub loaded : Bool
  pub error : String
  pub success : String
  pub selected_device : Option DeviceRow
  pub detail_open : Bool
  pub pending_removal : Option DeviceRow
  pub removing : Bool
  pub notice_timer : Bool
  pub stored : Option String  -- the item "jwt" of the local storage

unfoldable pub format_time_ago : (now : ℕ) → Option ℕ → String
format_time_ago now none = "Never"
format_time_ago now (some date) =
    let seconds = (now - date) / 1000 in
    if ltb seconds 60
    then "Just now"
    else if ltb (seconds / 60) 60
    then decimal (seconds / 60) <> "m ago"
    else if ltb (seconds / 60 / 60) 24
    then decimal (seconds / 60 / 60) <> "h ago"
    else decimal (seconds / 60 / 60 / 24) <> "d ago"

-- `a || b` on texts that are there
abbrev pub either : String → String → String
either a b = or_else (some a) b

unfoldable pub format_device : (now : ℕ) → Device → DeviceRow
format_device now d = record {
  device = d;
  status = if d.online then "online" else "offline";
  display_name = either d.manual_name (either d.display_name (either d.dns_name "Unknown"));
  address_display = either d.ipv4 (either d.ipv6 "—");
  tailscale_display =
      if non_empty d.tailscale_nodes
      then join ", " (map (λ (n : TailscaleNode). either n.name n.dns_name) d.tailscale_nodes)
      else "—";
  last_seen_display = format_time_ago now d.last_seen;
}

unfoldable pub show_success : String → Page → Page
show_success message p = record p { success = message; notice_timer = true }

unfoldable pub open_detail : DeviceRow → Page → Page
open_detail device p = record p { selected_device = some device; detail_open = true }

unfoldable pub close_detail : Page → Page
close_detail p = record p { detail_open = false; selected_device = none }

unfoldable pub request_removal : DeviceRow → Page → Page
request_removal row p = record p { pending_removal = some row }

abbrev pub is_ok : ℕ → Bool
is_ok status = leb 200 status && leb status 299

abbrev pub get_token : Page → String
get_token p = or_else p.stored ""

abbrev pub read_devices : (now : ℕ) → List Device ⊎ String → Page → Page
read_devices now (inl devices) p = record p {
  devices = map (format_device now) devices;
  error = "";
}
read_devices now (inr message) p = record p { error = message }

abbrev pub list_read : (now : ℕ) → Reply (List Device) → Page → Page
list_read now (failed message) p = record p { error = message }
list_read now (answered status text body) p =
    if status == 401
    then record p { error = "Authentication failed. Please login again" }
    else if status == 503
    then record p { devices = []; error = "" }
    else if not (is_ok status)
    then record p { error = "Failed to load devices: " <> (decimal status <> (" - " <> text)) }
    else read_devices now body p

module _ {S : Type 0} (api : DevicesApi S) (now : ℕ) where
  -- `loadDevices`, with a token or without one, for the reply
  abbrev pub loaded_page : (has_token : Bool) → Reply (List Device) → Page → Page
  loaded_page has_token reply p =
      record (if has_token
        then list_read now reply p
        else record p { error = "Please login first to view devices" }) {
          loading = false;
          loaded = true;
        }

  unfoldable pub load_devices : Page × S → Page × S
  load_devices (p, s) = (loaded_page (truthy (get_token p)) (api.list (get_token p) s) p, s)

  unfoldable pub handle_name_saved : Page × S → Page × S
  handle_name_saved (p, s) =
      load_devices (show_success "Device updated successfully" (close_detail p), s)

  -- `removing = false`
  abbrev pub stop_removing : Page × S → Page × S
  stop_removing (p, s) = (record p { removing = false }, s)

  -- `confirmRemoval`, after the reply
  abbrev pub removed : DeviceRow → S × Reply (Unit {0}) → Page → Page × S
  removed row (s, failed message) p = (record p { error = message; removing = false }, s)
  removed row (s, answered status text body) p =
      if is_ok status
      then stop_removing (
          load_devices (
            show_success ("\"" <> (row.display_name <> "\" removed"))
                (record p { pending_removal = none; error = "" }),
            s,
          ))
      else (record p { error = "Failed to remove device: " <> text; removing = false }, s)

  abbrev pub remove_chosen : Option DeviceRow → Page × S → Page × S
  remove_chosen none ps = ps
  remove_chosen (some row) (p, s) = removed row (api.remove row.device.id (get_token p) s) p

  unfoldable pub confirm_removal : Page × S → Page × S
  confirm_removal (p, s) = if p.removing then (p, s) else remove_chosen p.pending_removal (p, s)
