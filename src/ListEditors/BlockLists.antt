-- ===== src/ListEditors/BlockLists.antt =====
-- The editor of DNS block lists, ui/src/components/dnslists.svelte. The setting's value is the list
-- of the texts that its JSON holds. A handler gives the component after its last `await`.
pub mod Sync
use gatesentry.Shared.{
  ℕ, String, Bool, true, false, Option, none, some, List, [], ◌∷◌, ◌++◌, ◌⊎◌, inl, inr, ◌&&◌, ◌||◌,
  not, if◌then◌else◌, truthy, trim, to_lower, after_prefix, has_no_space, get_elem?, set, erase_idx,
}
use gatesentry.Notifications.{Notification, Message}
use gatesentry.Notifications as Notifications
use gatesentry.Notifications.Build.{create_notification_success, create_notification_error, titled}
use gatesentry.ListEditors.{ListApi, error_text}

pub record BlockListRow : Type 0 where
  pub id : ℕ
  pub content : String

pub record Editor : Type 0 where
  pub data_rows : List String  -- data
  pub loading : Bool
  pub saving : Bool
  pub load_error : String
  pub editing_row_id : Option ℕ
  pub editing_item_value : String
  pub pending_delete : Option BlockListRow
  pub show_form : Bool
  pub notices : List Notification  -- the notification store

-- `\S+$`
abbrev some_text : Option String → Bool
some_text none = false
some_text (some s) = truthy s && has_no_space s

-- `/^https?:\/\/\S+$/i`, on the trimmed text
unfoldable pub value_is_valid : String → Bool
value_is_valid v =
    let value = to_lower (trim v) in
    some_text (after_prefix "http://" value) || some_text (after_prefix "https://" value)

unfoldable pub close_form : Editor → Editor
close_form p = record p { show_form = false; editing_row_id = none; editing_item_value = "" }

unfoldable pub open_create : Editor → Editor
open_create p = record (close_form p) { show_form = true }

abbrev pub edit_value : ℕ → Option String → Editor → Editor
edit_value id none p = p
edit_value id (some value) p = record p {
  editing_row_id = some id;
  editing_item_value = value;
  show_form = true;
}

unfoldable pub edit_row : ℕ → Editor → Editor
edit_row id p = edit_value id (get_elem? p.data_rows id) p

-- `editingRowId == null ? [...data, value] : data.map(...)`
abbrev pub next_data : Option ℕ → String → List String → List String
next_data none value rows = rows ++ value ∷ []
next_data (some i) value rows = set rows i value

-- `rows.find((item) => item.id === id) ?? null`
abbrev pub row_at : ℕ → Option String → Option BlockListRow
row_at id none = none
row_at id (some content) = some (record { id = id; content = content })

unfoldable pub request_delete : ℕ → Editor → Editor
request_delete id p = record p { pending_delete = row_at id (get_elem? p.data_rows id) }

module _ {S : Type 0} (translator : String → String) (api : ListApi S String) where
  abbrev pub loaded : List String ⊎ String → Editor → Editor
  loaded (inl rows) p = record p { data_rows = rows; load_error = ""; loading = false }
  loaded (inr message) p = record p {
    data_rows = [];
    load_error = error_text message (translator "DNS block lists could not be loaded.");
    loading = false;
  }

  unfoldable pub load_api_data : Editor × S → Editor × S
  load_api_data (p, s) = (loaded (api.load s) p, s)

  abbrev pub persisted : List String → S × Option String → Editor → (Editor × S) × Bool
  persisted next (s, none) p = (
    (
      record p {
        data_rows = next;
        saving = false;
        notices =
            Notifications.add
              (create_notification_success translator (
                titled (translator "Block lists updated")
                  (translator "DNS block-list sources were saved.")))
              p.notices;
      },
      s,
    ),
    true,
  )
  persisted next (s, some message) p = (
    (
      record p {
        saving = false;
        notices =
            Notifications.add
              (create_notification_error translator (
                titled (translator "Block lists not saved")
                  (error_text message (translator "Unable to save block lists."))))
              p.notices;
      },
      s,
    ),
    false,
  )

  unfoldable pub persist : List String → Editor × S → (Editor × S) × Bool
  persist next (p, s) = if p.saving then ((p, s), false) else persisted next (api.save next s) p

  -- `if (await persist(next)) ...`
  abbrev pub if_saved : (Editor → Editor) → (Editor × S) × Bool → Editor × S
  if_saved f ((p, s), true) = (f p, s)
  if_saved f (ps, false) = ps

  unfoldable pub save_row : Editor × S → Editor × S
  save_row (p, s) =
      if not (value_is_valid p.editing_item_value) || p.saving
      then (p, s)
      else if_saved close_form
          (persist (next_data p.editing_row_id (trim p.editing_item_value) p.data_rows) (p, s))

  abbrev pub delete_target : Option BlockListRow → Editor × S → Editor × S
  delete_target none ps = ps
  delete_target (some target) (p, s) =
      if_saved (λ q. record q { pending_delete = none })
        (persist (erase_idx p.data_rows target.id) (p, s))

  unfoldable pub confirm_delete : Editor × S → Editor × S
  confirm_delete (p, s) = if p.saving then (p, s) else delete_target p.pending_delete (p, s)

-- What an administrator does.
pub data Event : Type 0 where
  reload create cancel submit confirm dismiss : Event
  edit : ℕ → Event
  type_value : String → Event
  ask_delete : ℕ → Event

module _ {S : Type 0} (translator : String → String) (api : ListApi S String) where
  unfoldable pub step : Event → Editor × S → Editor × S
  step reload ps = load_api_data translator api ps
  step create (p, s) = (open_create p, s)
  step cancel (p, s) = (close_form p, s)
  step submit ps = save_row translator api ps
  step confirm ps = confirm_delete translator api ps
  step dismiss (p, s) = (record p { pending_delete = none }, s)
  step (edit i) (p, s) = (edit_row i p, s)
  step (type_value v) (p, s) = (record p { editing_item_value = v }, s)
  step (ask_delete i) (p, s) = (request_delete i p, s)
