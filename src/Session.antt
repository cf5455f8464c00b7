-- ===== src/Session.antt =====
-- The session of the interface: the API client of ui/src/lib/api.ts with the store of
-- ui/src/store/apistore.ts, the check of ui/src/App.svelte, the form of
-- ui/src/routes/login/login.svelte and the button of ui/src/components/headerrightnav.svelte.
-- A call is sent at once and its reply arrives later, in any order, or never.
pub mod Invariant
use gatesentry.Shared.{
  ℕ, ◌+◌, String, Bool, true, false, Option, none, some, List, [], ◌∷◌, ◌++◌, ◌⊎◌, inl, inr, ◌||◌,
  ◌&&◌, not, ◌==◌, if◌then◌else◌, leb, ◌<>◌, or_else, decimal, get_elem?, erase_idx, ℕ_eq,
  String_eq,
}
use gatesentry.Notifications.{Notification}
use gatesentry.Notifications as Notifications
use gatesentry.Notifications.Build.{create_notification_error}

pub data AppState : Type 0 where
  checking setup login authenticated error : AppState

-- What a call is for: the setup status, the check of the token, a sign-in, or a page.
pub data Purpose : Type 0 where
  setup_status verify token page : Purpose

pub record Call : Type 0 where
  pub purpose : Purpose
  pub authorization : Option String  -- the header, if the call has one

-- What the session reads from a response's JSON.
pub record Body : Type 0 where
  pub complete : Bool
  pub validated : Bool
  pub jwtoken : String
  pub username : Option String

-- `fetch` rejects, or gives a status and a body that is read or is not JSON.
pub data Reply : Type 0 where
  rejected : String → Reply
  answered : ℕ → Body ⊎ String → Reply

pub record Session : Type 0 where
  -- the API client; an undefined `loggedIn` is false
  pub authorization : String
  pub jwt_token : Option String
  pub api_username : String
  pub logged_in : Bool
  -- the item "jwt" of the local storage
  pub stored : Option String
  -- the application and the route in the address bar
  pub state : AppState
  pub path : String
  -- the sign-in form
  pub username_text : String
  pub password_text : String
  pub invalid_message : String
  pub invalid : Bool
  pub submitting : Bool
  pub notices : List Notification
  -- the calls without a reply, the oldest first
  pub calls : List Call

-- `response.ok`
abbrev pub is_ok : ℕ → Bool
is_ok status = leb 200 status && leb status 299

-- The header that `getHeaders` builds; a missing item is the text null.
abbrev pub bearer : Option String → String
bearer none = "Bearer null"
bearer (some jwt) = "Bearer " <> jwt

unfoldable pub get_headers : Session → Session
get_headers s = record s { authorization = bearer s.stored }

unfoldable pub set_logged_in : String → String → Session → Session
set_logged_in jwt username s = record s {
  jwt_token = some jwt;
  api_username = username;
  logged_in = true;
}

unfoldable pub set_logged_out : Session → Session
set_logged_out s = record s { stored = none; api_username = ""; logged_in = false }

-- The part of `doCall` and `doCallRaw` before the reply.
unfoldable pub send : Purpose → Session → Session
unfolding get_headers
send purpose s = record (get_headers s) {
  calls = s.calls ++ record { purpose = purpose; authorization = some (bearer s.stored) } ∷ [];
}

-- What `doCall` gives for a reply.
abbrev pub call_result : Reply → Body ⊎ String
call_result (rejected message) = inr message
call_result (answered status body) =
    if status == 401
    then inr "Authentication required"
    else if not (is_ok status)
    then inr ("GateSentry request failed with status " <> decimal status)
    else body

abbrev pub is_unauthorized : Reply → Bool
is_unauthorized (rejected message) = false
is_unauthorized (answered status body) = status == 401

-- `onUnauthorizedcallMe`, which the store sets to its logout
unfoldable pub unauthorize : Reply → Session → Session
unauthorize r s = if is_unauthorized r then set_logged_out s else s

-- `checkSession`: until its first await, until its second, and after it.
unfoldable pub check_session : Session → Session
check_session s = record s {
  state = checking;
  calls = s.calls ++ record { purpose = setup_status; authorization = none } ∷ [];
}

abbrev pub status_read : Body ⊎ String → Session → Session
status_read (inr message) s = record s { state = error }
status_read (inl body) s =
    if not body.complete
    then record (set_logged_out s) { state = setup; path = "/setup" }
    else send verify s

unfoldable pub settle_status : Reply → Session → Session
settle_status (rejected message) s = record s { state = error }
settle_status (answered status body) s =
    if not (is_ok status) then record s { state = error } else status_read body s

abbrev pub verified : Body ⊎ String → Session → Session
verified (inr message) s = record s { state = error }
verified (inl body) s = record (set_logged_in (or_else s.stored "") (or_else body.username "") s) {
  state = authenticated;
  path = if s.path == "/login" || s.path == "/setup" then "/" else s.path;
}

unfoldable pub settle_verify : Reply → Session → Session
settle_verify (rejected message) s = record s { state = error }
settle_verify (answered status body) s =
    if status == 200
    then verified body s
    else record (set_logged_out s) { state = login; path = "/login" }

-- `handleLogin`, before and after its await.
unfoldable pub handle_login : Session → Session
handle_login s = record (send token s) { invalid = false; invalid_message = ""; submitting = true }

module _ (translator : String → String) where
  -- With `data.Validated`, and without it.
  abbrev pub accepted : Bool → Body → Session → Session
  accepted true body s = record (set_logged_in body.jwtoken (or_else body.username "") s) {
    stored = some body.jwtoken;
    password_text = "";
    state = authenticated;
    path = "/";
  }
  accepted false body s = record s {
    invalid_message = translator "Invalid username or password";
    invalid = true;
  }

  abbrev pub signed_in : Body ⊎ String → Session → Session
  signed_in (inl body) s = accepted body.validated body s
  signed_in (inr message) s = record s {
    notices =
        Notifications.add
          (create_notification_error translator (record {
            kind = none;
            title = none;
            subtitle = some (translator "Unable to contact GateSentry. Try again.");
            timeout = none;
          }))
          s.notices;
  }

  unfoldable pub settle_token : Reply → Session → Session
  settle_token r s = record (signed_in (call_result r) (unauthorize r s)) { submitting = false }

-- `cancel` of the sign-in form
unfoldable pub cancel : Session → Session
cancel s = record s {
  username_text = "";
  password_text = "";
  invalid = false;
  invalid_message = "";
}

-- `logout` of the header
unfoldable pub logout : Session → Session
logout s = record (set_logged_out s) { path = "/login"; state = login }

pub data Event : Type 0 where
  retry sign_in clear sign_out request : Event
  arrive : ℕ → Reply → Event

module _ (translator : String → String) where
  abbrev pub settle : Call → Reply → Session → Session
  settle c r s = elim (c.purpose) [
    | setup_status ↦ settle_status r s
    | verify ↦ settle_verify r s
    | token ↦ settle_token translator r s
    | page ↦ unauthorize r s
  ]

  abbrev pub settle_at : Option Call → ℕ → Reply → Session → Session
  settle_at none i r s = s
  settle_at (some c) i r s = settle c r (record s { calls = erase_idx s.calls i })

  -- The retry button is shown in the error state, the form in the login state and the header in the
  -- authenticated state. A page may send a call after it was left.
  unfoldable pub step : Event → Session → Session
  step retry s = elim (s.state) [ error ↦ check_session s | _ ↦ s ]
  step sign_in s = elim (s.state) [ login ↦ handle_login s | _ ↦ s ]
  step clear s = elim (s.state) [ login ↦ cancel s | _ ↦ s ]
  step sign_out s = elim (s.state) [ authenticated ↦ logout s | _ ↦ s ]
  step request s = send page s
  step (arrive i r) s = settle_at (get_elem? s.calls i) i r s

  unfoldable pub run : List Event → Session → Session
  run [] s = s
  run (e ∷ es) s = run es (step e s)

-- The application as it starts, with what the local storage holds.
abbrev pub opened : Option String → String → Session
opened stored path = check_session (record {
  authorization = bearer stored;
  jwt_token = none;
  api_username = "";
  logged_in = false;
  stored = stored;
  state = checking;
  path = path;
  username_text = "";
  password_text = "";
  invalid_message = "";
  invalid = false;
  submitting = false;
  notices = [];
  calls = [];
})
