-- ===== src/ListEditors/Filter.antt =====
-- The editor of inspection lists, ui/src/components/filtereditor.svelte. A score is a JavaScript
-- number, which is a parameter with its zero, its parser and its test for finite numbers. A handler
-- gives the component after its last `await`.
pub mod Ids
pub mod Unsaved
use gatesentry.Shared.{
  ℕ, ◌+◌, String, Bool, true, false, Option, none, some, List, [], ◌∷◌, ◌++◌, map, ◌⊎◌, inl, inr,
  ◌&&◌, ◌||◌, not, ◌==◌, if◌then◌else◌, truthy, trim, find, filter, length, ℕ_eq,
}
use gatesentry.Notifications.{Notification}
use gatesentry.Notifications as Notifications
use gatesentry.ListEditors.{ListApi, error_text}

-- What the component needs of numbers: 0, `Number` and `Number.isFinite`.
pub record Numbers (Num : Type 0) : Type 0 where
  pub zero : Num
  pub number : String → Num
  pub is_finite : Num → Bool

-- An entry as the server holds it.
pub record Entry (Num : Type 0) : Type 0 where
  pub content : String
  pub score : Num

pub record FilterRow (Num : Type 0) : Type 0 where
  pub id : ℕ
  pub content : String
  pub score : Num
  pub draft : Bool

pub record Editor (Num : Type 0) : Type 0 where
  pub rows : List (FilterRow Num)  -- data
  pub loading : Bool
  pub saving : Bool
  pub load_error : String
  pub save_error : String
  pub editing_row_id : Option ℕ
  pub pending_delete : Option (FilterRow Num)
  pub next_id : ℕ
  pub notices : List Notification  -- the notification store

module _ {Num : Type 0} where
  -- The rows of a response, from an index on.
  abbrev pub numbered : ℕ → List (Entry Num) → List (FilterRow Num)
  numbered i [] = []
  numbered i (e ∷ es) =
      record { id = i + 1; content = e.content; score = e.score; draft = false }
      ∷ numbered (i + 1) es

  abbrev pub payload : List (FilterRow Num) → List (Entry Num)
  payload = map (λ r. record { content = r.content; score = r.score })

  -- `$: editingRow`
  abbrev pub row_of : Option ℕ → List (FilterRow Num) → Option (FilterRow Num)
  row_of none rows = none
  row_of (some i) rows = find (λ r. r.id == i) rows

  unfoldable pub handle_content_change : ℕ → String → Editor Num → Editor Num
  handle_content_change id value p = record p {
    rows = map (λ r. if r.id == id then record r { content = value } else r) p.rows;
  }

  unfoldable pub edit_row : ℕ → Editor Num → Editor Num
  edit_row id p = record p { editing_row_id = some id; save_error = "" }

  -- `data.filter((item) => item.id !== editingRow.id)`, if that row is a draft
  abbrev pub without_draft : Option (FilterRow Num) → List (FilterRow Num) → List (FilterRow Num)
  without_draft none rows = rows
  without_draft (some r) rows = if r.draft then filter (λ q. not (q.id == r.id)) rows else rows

  unfoldable pub cancel_editing : Editor Num → Editor Num
  cancel_editing p = record p {
    rows = without_draft (row_of p.editing_row_id p.rows) p.rows;
    editing_row_id = none;
    save_error = "";
  }

  unfoldable pub request_delete : ℕ → Editor Num → Editor Num
  request_delete id p = record p { pending_delete = find (λ r. r.id == id) p.rows }

module _ {Num : Type 0} (num : Numbers Num) where
  unfoldable pub handle_score_change : ℕ → String → Editor Num → Editor Num
  handle_score_change id value p = record p {
    rows = map (λ r. if r.id == id then record r { score = num.number value } else r) p.rows;
  }

  -- `showScore` says whether the score column is shown.
  abbrev pub can_save_row : Bool → Option (FilterRow Num) → Bool
  can_save_row show_score none = false
  can_save_row show_score (some r) =
      truthy (trim r.content) && (not show_score || num.is_finite r.score)

  abbrev pub add_draft : Option ℕ → Editor Num → Editor Num
  add_draft (some i) p = p
  add_draft none p = record p {
    rows = p.rows ++ record { id = p.next_id; content = ""; score = num.zero; draft = true } ∷ [];
    next_id = p.next_id + 1;
    editing_row_id = some p.next_id;
  }

  unfoldable pub add_row : Editor Num → Editor Num
  add_row p = add_draft p.editing_row_id p

module _ {S Num : Type 0} (translator : String → String) (num : Numbers Num)
    (api : ListApi S (Entry Num)) where
  abbrev pub loaded : List (Entry Num) ⊎ String → Editor Num → Editor Num
  loaded (inl entries) p = record p {
    rows = numbered 0 entries;
    next_id = length entries + 1;
    editing_row_id = none;
    load_error = "";
    loading = false;
  }
  loaded (inr message) p = record p {
    load_error = error_text message (translator "This inspection list could not be loaded.");
    loading = false;
  }

  unfoldable pub load_api_data : Editor Num × S → Editor Num × S
  load_api_data (p, s) = (loaded (api.load s) p, s)

  abbrev pub notify_saved : List Notification → List Notification
  notify_saved = Notifications.add (record {
    kind = "success";
    title = translator "Inspection list updated";
    subtitle = translator "The filter was saved successfully.";
    timeout = some 3000;
  })

  abbrev pub saved_data : S × Option String → Editor Num → (Editor Num × S) × Bool
  saved_data (s, none) p = (
    (
      record (loaded (api.load s) p) {
        saving = false;
        save_error = "";
        notices = notify_saved p.notices;
      },
      s,
    ),
    true,
  )
  saved_data (s, some message) p = (
    (
      record p {
        saving = false;
        save_error = error_text message (translator "This inspection list could not be saved.");
      },
      s,
    ),
    false,
  )

  unfoldable pub save_data : List (FilterRow Num) → Editor Num × S → (Editor Num × S) × Bool
  save_data next (p, s) =
      if p.saving then ((p, s), false) else saved_data (api.save (payload next) s) p

  unfoldable pub save_editing_row : Bool → Editor Num × S → Editor Num × S
  save_editing_row show_score (p, s) =
      if can_save_row num show_score (row_of p.editing_row_id p.rows)
      then (save_data
          (map {A = FilterRow Num} {B = FilterRow Num}
            (λ (r : FilterRow Num). record r { draft = false }) p.rows)
          (p, s)).0
      else (p, s)

  abbrev pub deleted : (Editor Num × S) × Bool → Editor Num × S
  deleted ((p, s), true) = (record p { pending_delete = none }, s)
  deleted (ps, false) = ps

  abbrev pub delete_target : Option (FilterRow Num) → Editor Num × S → Editor Num × S
  delete_target none ps = ps
  delete_target (some target) (p, s) =
      deleted (save_data (filter (λ r. not (r.id == target.id)) p.rows) (p, s))

  unfoldable pub confirm_delete : Editor Num × S → Editor Num × S
  confirm_delete (p, s) = if p.saving then (p, s) else delete_target p.pending_delete (p, s)

pub data Event : Type 0 where
  reload cancel add confirm dismiss : Event
  submit : (show_score : Bool) → Event
  edit : ℕ → Event
  type_content type_score : ℕ → String → Event
  ask_delete : ℕ → Event

module _ {S Num : Type 0} (translator : String → String) (num : Numbers Num)
    (api : ListApi S (Entry Num)) where
  unfoldable pub step : Event → Editor Num × S → Editor Num × S
  step reload ps = load_api_data translator num api ps
  step cancel (p, s) = (cancel_editing p, s)
  step add (p, s) = (add_row num p, s)
  step (submit show_score) ps = save_editing_row translator num api show_score ps
  step confirm ps = confirm_delete translator num api ps
  step dismiss (p, s) = (record p { pending_delete = none }, s)
  step (edit i) (p, s) = (edit_row i p, s)
  step (type_content i v) (p, s) = (handle_content_change i v p, s)
  step (type_score i v) (p, s) = (handle_score_change num i v p, s)
  step (ask_delete i) (p, s) = (request_delete i p, s)

  unfoldable pub run : List Event → Editor Num × S → Editor Num × S
  run [] ps = ps
  run (e ∷ es) ps = run es (step e ps)
