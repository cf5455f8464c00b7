-- ===== src/Users/Access.antt =====
-- What the page shows after an access was changed.
use gatesentry.Shared.{String, Bool, ◌≡◌, ◌∙◌, sym, ap, inl, map, ◌==◌, if◌then◌else◌, String_eq}
use gatesentry.Users.{Payload, accepted, UsersApi, Page, loaded, load_users, access_set, set_access}

-- An update that is accepted changes the access of its user alone.
pub record IsSound {S : Type 0} (api : UsersApi S) : Type 0 where
  pub updates :
      (x : Payload) (s : S)
      → (api.update x s).1 ≡ accepted
      → api.held (api.update x s).0
        ≡ map
            (λ u. if u.username == x.username then record u { allowaccess = x.allowaccess } else u)
            (api.held s)

module _ {S : Type 0} (translator : String → String) (api : UsersApi S) where
  -- A change of access that the server accepts, when its users can be listed afterwards, shows the users that
  -- it held before with the access of that user changed and no other change, and no error.
  pub set_access_lem :
      (username : String) (allow : Bool) (p : Page) (s t : S)
      → IsSound api
      → api.update (record { username = username; password = ""; allowaccess = allow }) s
        ≡ (t, accepted)
      → api.list t ≡ inl (api.held t)
      → ((set_access translator api username allow (p, s)).0.users
          ≡ map
              (λ u. if u.username == username then record u { allowaccess = allow } else u)
              (api.held s))
        × ((set_access translator api username allow (p, s)).0.error ≡ "")
  unfolding set_access load_users
  set_access_lem username allow p s t sound stored listed =
      let kept : api.held t
          ≡ map (λ u. if u.username == username then record u { allowaccess = allow } else u)
              (api.held s) =
        ap (λ r. api.held r.0) (sym stored)
        ∙ sound.updates (record { username = username; password = ""; allowaccess = allow }) s
            (ap (λ r. r.1) stored) in
      let answered =
        ap (λ r. (access_set translator api allow r (record p { error = ""; success = "" })).0)
          stored in
      let read = λ (q : Page). ap (λ r. loaded translator api r q) listed in
      (ap (λ q. q.users) (answered ∙ read _) ∙ kept, ap (λ q. q.error) (answered ∙ read _))
