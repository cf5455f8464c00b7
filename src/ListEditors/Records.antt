-- ===== src/ListEditors/Records.antt =====
-- The editor of custom DNS records, ui/src/components/dnsArecords.svelte. The test for an IPv4
-- address is a library's and a parameter. A handler gives the component after its last `await`.
pub mod Ids
pub mod Lost
use gatesentry.Shared.{
  ℕ, suc, ◌+◌, String, Bool, true, false, Option, none, some, List, [], ◌∷◌, ◌++◌, map, ◌⊎◌, inl,
  inr, ◌&&◌, ◌||◌, not, ◌==◌, if◌then◌else◌, truthy, trim, find, filter, length, ℕ_eq,
}
use gatesentry.Notifications.{Notification}
use gatesentry.Notifications as Notifications
use gatesentry.Notifications.Build.{create_notification_success, create_notification_error, titled}
use gatesentry.ListEditors.{ListApi, error_text}

-- A record as the server holds it.
pub record Entry : Type 0 where
  pub domain : String
  pub ip : String

pub record DnsRecord : Type 0 where
  pub id : ℕ
  pub domain : String
  pub ip : String

pub record Editor : Type 0 where
  pub records : List DnsRecord  -- data
  pub loading : Bool
  pub saving : Bool
  pub load_error : String
  pub domain_text : String
  pub ip_text : String
  pub editing_row_id : Option ℕ
  pub pending_delete : Option DnsRecord
  pub show_form : Bool
  pub notices : List Notification  -- the notification store

-- `records.map((item, index) => ({ id: index + 1, ... }))`, from an index on
abbrev pub numbered : ℕ → List Entry → List DnsRecord
numbered i [] = []
numbered i (e ∷ es) = record { id = i + 1; domain = e.domain; ip = e.ip } ∷ numbered (suc i) es

-- `records.map(({ domain, ip }) => ({ domain, ip }))`
abbrev pub payload : List DnsRecord → List Entry
payload = map (λ r. record { domain = r.domain; ip = r.ip })

unfoldable pub close_form : Editor → Editor
close_form p = record p { show_form = false; editing_row_id = none; domain_text = ""; ip_text = "" }

unfoldable pub open_create : Editor → Editor
open_create p = record (close_form p) { show_form = true }

abbrev pub edit_record : ℕ → Option DnsRecord → Editor → Editor
edit_record id none p = p
edit_record id (some row) p = record p {
  editing_row_id = some id;
  domain_text = row.domain;
  ip_text = row.ip;
  show_form = true;
}

unfoldable pub edit_row : ℕ → Editor → Editor
edit_row id p = edit_record id (find (λ r. r.id == id) p.records) p

abbrev pub next_records : Option ℕ → String → String → List DnsRecord → List DnsRecord
next_records none domain ip rows =
    rows ++ record { id = length rows + 1; domain = domain; ip = ip } ∷ []
next_records (some i) domain ip rows =
    map (λ r. if r.id == i then record r { domain = domain; ip = ip } else r) rows

unfoldable pub request_delete : ℕ → Editor → Editor
request_delete id p = record p { pending_delete = find (λ r. r.id == id) p.records }

module _ {S : Type 0} (translator : String → String) (is_ipv4 : String → Bool)
    (api : ListApi S Entry) where
  abbrev pub loaded : List Entry ⊎ String → Editor → Editor
  loaded (inl entries) p = record p {
    records = numbered 0 entries;
    load_error = "";
    loading = false;
  }
  loaded (inr message) p = record p {
    load_error = error_text message (translator "Custom DNS records could not be loaded.");
    loading = false;
  }

  unfoldable pub load_api_data : Editor × S → Editor × S
  load_api_data (p, s) = (loaded (api.load s) p, s)

  abbrev pub persisted : S × Option String → Editor → (Editor × S) × Bool
  persisted (s, none) p = (
    (
      record (loaded (api.load s) p) {
        saving = false;
        notices =
            Notifications.add
              (create_notification_success translator (
                titled (translator "DNS records updated")
                  (translator "Custom A records were saved.")))
              p.notices;
      },
      s,
    ),
    true,
  )
  persisted (s, some message) p = (
    (
      record p {
        saving = false;
        notices =
            Notifications.add
              (create_notification_error translator (
                titled (translator "DNS records not saved")
                  (error_text message (translator "Custom DNS records could not be saved."))))
              p.notices;
      },
      s,
    ),
    false,
  )

  unfoldable pub persist : List DnsRecord → Editor × S → (Editor × S) × Bool
  persist rows (p, s) =
      if p.saving then ((p, s), false) else persisted (api.save (payload rows) s) p

  abbrev pub if_saved : (Editor → Editor) → (Editor × S) × Bool → Editor × S
  if_saved f ((p, s), true) = (f p, s)
  if_saved f (ps, false) = ps

  -- The early return of `saveRow`.
  unfoldable pub may_save : Editor → Bool
  may_save p = truthy (trim p.domain_text) && (is_ipv4 (trim p.ip_text) && not p.saving)

  unfoldable pub save_row : Editor × S → Editor × S
  save_row (p, s) =
      if may_save p
      then if_saved close_form (
          persist (next_records p.editing_row_id (trim p.domain_text) (trim p.ip_text) p.records)
            (p, s))
      else (p, s)

  abbrev pub delete_target : Option DnsRecord → Editor × S → Editor × S
  delete_target none ps = ps
  delete_target (some target) (p, s) =
      if_saved (λ q. record q { pending_delete = none })
        (persist (filter (λ r. not (r.id == target.id)) p.records) (p, s))

  unfoldable pub confirm_delete : Editor × S → Editor × S
  confirm_delete (p, s) = if p.saving then (p, s) else delete_target p.pending_delete (p, s)

pub data Event : Type 0 where
  reload create cancel submit confirm dismiss : Event
  edit : ℕ → Event
  type_domain type_ip : String → Event
  ask_delete : ℕ → Event

module _ {S : Type 0} (translator : String → String) (is_ipv4 : String → Bool)
    (api : ListApi S Entry) where
  unfoldable pub step : Event → Editor × S → Editor × S
  step reload ps = load_api_data translator is_ipv4 api ps
  step create (p, s) = (open_create p, s)
  step cancel (p, s) = (close_form p, s)
  step submit ps = save_row translator is_ipv4 api ps
  step confirm ps = confirm_delete translator is_ipv4 api ps
  step dismiss (p, s) = (record p { pending_delete = none }, s)
  step (edit i) (p, s) = (edit_row i p, s)
  step (type_domain v) (p, s) = (record p { domain_text = v }, s)
  step (type_ip v) (p, s) = (record p { ip_text = v }, s)
  step (ask_delete i) (p, s) = (request_delete i p, s)

  unfoldable pub run : List Event → Editor × S → Editor × S
  run [] ps = ps
  run (e ∷ es) ps = run es (step e ps)
