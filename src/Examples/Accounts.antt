-- ===== src/Examples/Accounts.antt =====
-- The page of proxy users on a small server.
use gatesentry.Shared.{
  String, true, false, none, List, [], ◌∷◌, ◌++◌, ◌≡◌, ◌⊎◌, refl, inl, map, filter, not, ◌==◌,
  if◌then◌else◌, String_eq, ℕ_eq,
}
use gatesentry.Users.{User, Payload, accepted, UsersApi, Form, Page, valid, submit}
use gatesentry.Users.Valid.{is_marked, sent, submit_lem}
use gatesentry.Users.Access.{IsSound}

abbrev untranslated : String → String
untranslated s = s

abbrev ann : User
ann = record { username = "ann"; allowaccess = true; dataconsumed = 0 }

abbrev bob : User
bob = record { username = "bob"; allowaccess = true; dataconsumed = 5 }

abbrev granted : Payload → User → User
granted x u = if u.username == x.username then record u { allowaccess = x.allowaccess } else u

-- A server that keeps a list.
abbrev accounts : UsersApi (List User)
accounts = record {
  list = λ s. inl s;
  create = λ x s. (
    s ++ record { username = x.username; allowaccess = x.allowaccess; dataconsumed = 0 } ∷ [],
    accepted,
  );
  update = λ x s. (map (granted x) s, accepted);
  delete = λ name s. (filter (λ (u : User). not (u.username == name)) s, accepted);
  held = λ s. s;
}

accounts-IsSound : IsSound accounts
accounts-IsSound = record { updates = λ x s e. refl }

abbrev listed : Page
listed = record {
  users = ann ∷ bob ∷ [];
  loading = false;
  error = "";
  success = "";
  show_form = true;
  saving_user = false;
  editing_user = none;
  pending_delete = none;
  deleting = false;
}

abbrev new_user : Form
new_user = record {
  user = none;
  username = "carol";
  password = "a long password";
  allow_access = "true";
  attempted = false;
  error = "";
  saving = false;
}

submit_lem_example :
    ((valid new_user ≡ false)
      × ((submit untranslated accounts ((new_user, listed), ann ∷ bob ∷ [])).1 ≡ ann ∷ bob ∷ [])
      × (is_marked (submit untranslated accounts ((new_user, listed), ann ∷ bob ∷ [])).0.0 ≡ true))
    ⊎ ((valid new_user ≡ true)
        × ((submit untranslated accounts ((new_user, listed), ann ∷ bob ∷ [])).1
            ≡ (sent untranslated accounts new_user (ann ∷ bob ∷ [])).0)
        × (is_marked (submit untranslated accounts ((new_user, listed), ann ∷ bob ∷ [])).0.0
            ≡ false))
submit_lem_example = submit_lem untranslated accounts new_user listed (ann ∷ bob ∷ []) refl
