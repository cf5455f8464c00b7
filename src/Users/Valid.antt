-- ===== src/Users/Valid.antt =====
-- When the form refuses to send, and what it shows.
use mathlib.Core.Bool.{false≢true}
use gatesentry.Shared.{
  ℕ, String, Bool, true, false, ◌≡◌, ◌∙◌, refl, ap, ◌⊎◌, inl, inr, ◌&&◌, ◌||◌, not, ◌==◌,
  if◌then◌else◌, leb, ltb, trim, Bool-cases, arith, ℕ_eq, if_cases,
}
use gatesentry.Users.{
  Answer, accepted, refused, thrown, UsersApi, Form, Page, js_length, is_editing, username_invalid,
  password_invalid, valid, form_payload, load_users, user_saved, submitted, submit,
}

fields_iff :
    (attempted editing : Bool) (name password : ℕ)
    → attempted ≡ true
    → (attempted && ltb name 3 || attempted && ((not editing || ltb 0 password) && ltb password 10))
      ≡ not (leb 3 name && (if editing then password == 0 || leb 10 password else leb 10 password))
fields_iff attempted editing name password tried = ground (arith, tried)

-- Is a field marked as wrong?
abbrev pub is_marked : Form → Bool
is_marked f = username_invalid f || password_invalid f

is_marked-valid : (f : Form) → f.attempted ≡ true → is_marked f ≡ not (valid f)
unfolding username_invalid password_invalid valid
is_marked-valid f tried =
    fields_iff f.attempted (is_editing f.user) (js_length (trim f.username)) (js_length f.password)
      tried

-- The form after the click.
abbrev tried : Form → Form
tried f = record f { attempted = true; error = "" }

module _ {S : Type 0} (translator : String → String) (api : UsersApi S) where
  -- The answer of the server to the request of a form.
  abbrev pub sent : Form → S → S × Answer
  sent f s =
      if is_editing f.user then api.update (form_payload f) s else api.create (form_payload f) s

  server-user_saved :
      (editing : Bool) (p : Page) (s : S) → (user_saved translator api editing (p, s)).1 ≡ s
  unfolding user_saved load_users
  server-user_saved editing p s = refl

  submitted-sent :
      (r : S × Answer) (f : Form) (p : Page)
      → f.attempted ≡ true
      → valid f ≡ true
      → ((submitted translator api r (f, p)).1 ≡ r.0)
        × (is_marked (submitted translator api r (f, p)).0.0 ≡ false)
  unfolding username_invalid password_invalid valid
  submitted-sent (s, accepted) f p tried ok =
      (server-user_saved (is_editing f.user) p s, is_marked-valid f tried ∙ ap not ok)
  submitted-sent (s, refused message) f p tried ok = (refl, is_marked-valid f tried ∙ ap not ok)
  submitted-sent (s, thrown message) f p tried ok = (refl, is_marked-valid f tried ∙ ap not ok)

  -- A form that is not being saved either is not valid, sends nothing and marks a field, or is valid, sends
  -- its request once and marks none.
  pub submit_lem :
      (f : Form) (p : Page) (s : S)
      → f.saving ≡ false
      → ((valid f ≡ false)
          × ((submit translator api ((f, p), s)).1 ≡ s)
          × (is_marked (submit translator api ((f, p), s)).0.0 ≡ true))
        ⊎ ((valid f ≡ true)
            × ((submit translator api ((f, p), s)).1 ≡ (sent f s).0)
            × (is_marked (submit translator api ((f, p), s)).0.0 ≡ false))
  unfolding submit username_invalid password_invalid valid
  submit_lem f p s free = elim (Bool-cases (valid f)) [
    | inl ok ↦
        let (one, two) =
          if_cases (λ (x : (Form × Page) × S). (x.1 ≡ (sent f s).0) × (is_marked x.0.0 ≡ false))
            (not (valid (tried f)) || f.saving)
            (λ stop. absurd (false≢true (ground (arith, ok, free, stop))))
            (λ go. submitted-sent (sent f s) (tried f) p refl ok) in
        inr (ok, one, two)
    | inr bad ↦
        let (one, two) =
          if_cases (λ (x : (Form × Page) × S). (x.1 ≡ s) × (is_marked x.0.0 ≡ true))
            (not (valid (tried f)) || f.saving)
            (λ stop. (refl, is_marked-valid (tried f) refl ∙ ap not bad))
            (λ go. absurd (false≢true (ground (arith, bad, go)))) in
        inl (bad, one, two)
  ]
