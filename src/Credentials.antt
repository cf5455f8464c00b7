-- ===== src/Credentials.antt =====
-- The length of a password in bytes and the page that sets GateSentry up:
-- ui/src/lib/credentials.ts and ui/src/routes/setup/setup.svelte. A handler gives the page after its
-- last `await`. The server is a parameter: what it answers to the two requests.
pub mod Setup
use Prim.Native.String.{len}
use gatesentry.Shared.{
  ℕ, String, Bool, true, false, Option, none, some, ◌&&◌, ◌||◌, not, ◌==◌, if◌then◌else◌, leb, ltb,
  truthy, ◌<>◌, decimal, ℕ_eq, String_eq,
}

abbrev pub min_password_bytes : ℕ
min_password_bytes = 12

abbrev pub max_password_bytes : ℕ
max_password_bytes = 72

-- A native text's length is that of its UTF-8.
abbrev pub utf8_byte_length : String → ℕ
utf8_byte_length = len

unfoldable pub password_has_valid_byte_length : String → Bool
password_has_valid_byte_length value =
    let length = utf8_byte_length value in
    leb min_password_bytes length && leb length max_password_bytes

-- `fetch` rejects, or gives a status and what the body says of the setup, if it is JSON.
pub data StatusReply : Type 0 where
  unreachable : StatusReply
  answered : ℕ → Option Bool → StatusReply

pub record SetupApi (S : Type 0) : Type 0 where
  pub status : S → StatusReply
  pub post : (username password : String) → S → S × Option ℕ

pub record Page : Type 0 where
  pub username : String
  pub password : String
  pub confirmation : String
  pub error : String
  pub submitting : Bool
  pub status_loaded : Bool
  pub status_failed : Bool
  pub location : String  -- the route in the address bar

pub record Blocker : Type 0 where
  pub message : String
  pub field : String

abbrev pub password_length_error : Page → Bool
password_length_error p = truthy p.password && not (password_has_valid_byte_length p.password)

abbrev pub password_length_message : Page → String
password_length_message p =
    "Password must contain between "
    <> (decimal min_password_bytes
        <> (" and "
            <> (decimal max_password_bytes
                <> (" UTF-8 bytes (currently "
                    <> (decimal (utf8_byte_length p.password) <> ").")))))

abbrev pub confirmation_mismatch : Page → Bool
confirmation_mismatch p = truthy p.confirmation && not (p.password == p.confirmation)

-- Why the form cannot be sent.
unfoldable pub blocker : Page → Blocker
blocker p =
    if not (truthy p.username)
    then record { message = "Enter an administrator username."; field = "" }
    else if not (truthy p.password)
    then record { message = "Enter a password."; field = "" }
    else if password_length_error p
    then record { message = password_length_message p; field = "password" }
    else if not (truthy p.confirmation)
    then record { message = "Re-enter the password to confirm it."; field = "" }
    else if confirmation_mismatch p
    then record { message = "Passwords do not match."; field = "confirmation" }
    else record { message = ""; field = "" }

-- `disabled` of the button
unfoldable pub is_disabled : Page → Bool
is_disabled p = not p.status_loaded || (p.submitting || truthy (blocker p).message)

abbrev pub is_ok : ℕ → Bool
is_ok status = leb 200 status && leb status 299

abbrev pub status_read : StatusReply → Page → Page
status_read unreachable p = record p {
  status_failed = true;
  error = "Unable to read setup status.";
}
status_read (answered code none) p = record p {
  status_failed = true;
  error = "Unable to read setup status.";
}
status_read (answered code (some complete)) p =
    if not (is_ok code)
    then record p { status_failed = true; error = "Unable to read setup status." }
    else if complete
    then record p { status_failed = false; error = ""; location = "/login" }
    else record p { status_failed = false; error = ""; status_loaded = true }

module _ {S : Type 0} (api : SetupApi S) where
  unfoldable pub load_status : Page × S → Page × S
  load_status (p, s) = (status_read (api.status s) p, s)

  abbrev pub posted : S × Option ℕ → Page → Page × S
  posted (s, none) p = (record p { error = "Unable to contact GateSentry."; submitting = false }, s)
  posted (s, some code) p = (
    if is_ok code
        then record p {
          error = "";
          password = "";
          confirmation = "";
          location = "/login";
          submitting = false;
        }
        else record p {
          error =
              if code == 409
              then "Setup was already completed. Sign in instead."
              else "Setup could not be completed.";
          submitting = false;
        },
    s,
  )

  unfoldable pub submit : Page × S → Page × S
  submit (p, s) =
      if not (password_has_valid_byte_length p.password)
      then (record p { error = "Password must contain between 12 and 72 UTF-8 bytes." }, s)
      else if not (p.password == p.confirmation)
      then (record p { error = "Passwords do not match." }, s)
      else posted (api.post p.username p.password s) p
