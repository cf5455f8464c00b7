-- ===== src/Users.antt =====
-- The page of proxy users and its form: ui/src/routes/users/users.svelte and
-- ui/src/routes/users/usermodal.svelte. The server is a parameter. A handler gives the page after its
-- last `await`.
pub mod Valid
pub mod Access
use Prim.Native.Char.{code}
use Prim.Native.String as Text
use gatesentry.Shared.{
  ℕ, ◌+◌, String, Bool, true, false, Option, none, some, List, [], ◌∷◌, ◌≡◌, ◌⊎◌, inl, inr, ◌&&◌,
  ◌||◌, not, ◌==◌, if◌then◌else◌, leb, ltb, truthy, trim, find, filter, map, String_eq, ℕ_eq,
}
use gatesentry.ListEditors.{error_text}

pub record User : Type 0 where
  pub username : String
  pub allowaccess : Bool
  pub dataconsumed : ℕ

-- What a save sends; an empty password keeps the stored one.
pub record Payload : Type 0 where
  pub username : String
  pub password : String
  pub allowaccess : Bool

-- A request is accepted, is refused with the text of the answer, if it has one, or throws.
pub data Answer : Type 0 where
  accepted : Answer
  refused : Option String → Answer
  thrown : String → Answer

pub record UsersApi (S : Type 0) : Type 0 where
  pub list : S → List User ⊎ String
  pub create : Payload → S → S × Answer
  pub update : Payload → S → S × Answer
  pub delete : String → S → S × Answer
  pub held : S → List User

pub record Form : Type 0 where
  pub user : Option User
  pub username : String
  pub password : String
  pub allow_access : String
  pub attempted : Bool
  pub error : String
  pub saving : Bool

-- `value.length`, in units of UTF-16
abbrev pub js_length : String → ℕ
js_length Text.[] = 0
js_length (Text.◌∷◌ c s) = (if ltb (code c) 65536 then 1 else 2) + js_length s

abbrev pub username_of : Option User → String
username_of none = ""
username_of (some user) = user.username

abbrev pub access_of : Option User → String
access_of none = "false"
access_of (some user) = if user.allowaccess then "true" else "false"

abbrev pub is_editing : Option User → Bool
is_editing none = false
is_editing (some user) = true

-- The reactive statement, when the user changes.
unfoldable pub set_user : Option User → Form → Form
set_user user f = record f {
  user = user;
  username = username_of user;
  password = "";
  allow_access = access_of user;
  attempted = false;
  error = "";
}

unfoldable pub username_invalid : Form → Bool
username_invalid f = f.attempted && ltb (js_length (trim f.username)) 3

unfoldable pub password_invalid : Form → Bool
password_invalid f =
    f.attempted
    && ((not (is_editing f.user) || ltb 0 (js_length f.password)) && ltb (js_length f.password) 10)

unfoldable pub valid : Form → Bool
valid f =
    leb 3 (js_length (trim f.username))
    && (if is_editing f.user
        then js_length f.password == 0 || leb 10 (js_length f.password)
        else leb 10 (js_length f.password))

-- `user?.username ?? username.trim()`
abbrev pub normalized_username : Option User → String → String
normalized_username none typed = trim typed
normalized_username (some user) typed = user.username

abbrev pub form_payload : Form → Payload
form_payload f = record {
  username = normalized_username f.user f.username;
  password = f.password;
  allowaccess = f.allow_access == "true";
}

-- `response?.error ?? response?.Error ?? fallback`
abbrev pub response_error : Option String → String → String
response_error none fallback = fallback
response_error (some message) fallback = message

pub record Page : Type 0 where
  pub users : List User
  pub loading : Bool
  pub error : String
  pub success : String
  pub show_form : Bool
  pub saving_user : Bool
  pub editing_user : Option User
  pub pending_delete : Option User
  pub deleting : Bool

unfoldable pub close_form : Page → Page
close_form p = record p { show_form = false; editing_user = none; saving_user = false }

unfoldable pub add_user : Page → Page
add_user p = record p { editing_user = none; show_form = true }

unfoldable pub edit_user : String → Page → Page
edit_user username p = record p {
  editing_user = find (λ u. u.username == username) p.users;
  show_form = true;
}

unfoldable pub request_delete : String → Page → Page
request_delete username p = record p { pending_delete = find (λ u. u.username == username) p.users }

module _ {S : Type 0} (translator : String → String) (api : UsersApi S) where
  abbrev pub loaded : List User ⊎ String → Page → Page
  loaded (inl users) p = record p { users = users; error = ""; loading = false }
  loaded (inr message) p = record p {
    error = error_text message (translator "Proxy users could not be loaded.");
    loading = false;
  }

  unfoldable pub load_users : Page × S → Page × S
  load_users (p, s) = (loaded (api.list s) p, s)

  -- `userSaved`, with whether a user was edited
  unfoldable pub user_saved : (editing : Bool) → Page × S → Page × S
  user_saved editing (p, s) = load_users (
    record (close_form p) {
      success =
          if editing then translator "Proxy user updated." else translator "Proxy user created.";
    },
    s,
  )

  -- `submit` of the form, after the reply
  abbrev pub submitted : S × Answer → Form × Page → (Form × Page) × S
  submitted (s, accepted) (f, p) =
      let (q, t) = user_saved (is_editing f.user) (p, s) in
      ((record f { error = ""; saving = false }, q), t)
  submitted (s, refused message) (f, p) = (
    (
      record f {
        error = response_error message (translator "The user could not be saved.");
        saving = false;
      },
      p,
    ),
    s,
  )
  submitted (s, thrown message) (f, p) = (
    (
      record f {
        error = error_text message (translator "The user could not be saved.");
        saving = false;
      },
      p,
    ),
    s,
  )

  unfoldable pub submit : (Form × Page) × S → (Form × Page) × S
  submit ((f, p), s) =
      let tried = record f { attempted = true; error = "" } in
      if not (valid tried) || f.saving
      then ((tried, p), s)
      else submitted
          (if is_editing f.user
            then api.update (form_payload f) s
            else api.create (form_payload f) s)
          (tried, p)

  abbrev pub access_set : Bool → S × Answer → Page → Page × S
  access_set allow (s, accepted) p = load_users (
    record p {
      success =
          if allow
          then translator "Internet access enabled."
          else translator "Internet access paused.";
    },
    s,
  )
  access_set allow (s, refused message) p = (
    record p {
      error =
          error_text (response_error message (translator "Access could not be updated."))
            (translator "Access could not be updated.");
    },
    s,
  )
  access_set allow (s, thrown message) p =
      (record p { error = error_text message (translator "Access could not be updated.") }, s)

  unfoldable pub set_access : String → Bool → Page × S → Page × S
  set_access username allow (p, s) =
      access_set allow
        (api.update (record { username = username; password = ""; allowaccess = allow }) s)
        (record p { error = ""; success = "" })

  abbrev pub stop_deleting : Page × S → Page × S
  stop_deleting (p, s) = (record p { deleting = false }, s)

  abbrev pub deleted : S × Answer → Page → Page × S
  deleted (s, accepted) p = stop_deleting (
      load_users
        (record p { pending_delete = none; success = translator "Proxy user deleted." }, s))
  deleted (s, refused message) p = (
    record p {
      error =
          error_text (response_error message (translator "The proxy user could not be deleted."))
            (translator "The proxy user could not be deleted.");
      deleting = false;
    },
    s,
  )
  deleted (s, thrown message) p = (
    record p {
      error = error_text message (translator "The proxy user could not be deleted.");
      deleting = false;
    },
    s,
  )

  abbrev pub delete_chosen : Option User → Page × S → Page × S
  delete_chosen none ps = ps
  delete_chosen (some user) (p, s) =
      deleted (api.delete user.username s) (record p { error = ""; success = "" })

  unfoldable pub confirm_delete : Page × S → Page × S
  confirm_delete (p, s) = if p.deleting then (p, s) else delete_chosen p.pending_delete (p, s)
