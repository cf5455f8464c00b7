-- ===== src/Credentials/Setup.antt =====
-- When the setup form can be sent, and what is sent.
use Prim.Native.String.{len}
use Prim.Native.String as Text
use text.Mathlib.TextLemmas.{cons-append}
use mathlib.Core.Bool.{false≢true}
use gatesentry.Shared.{
  ◌⊎◌, subst, ℕ, ◌≤◌, String, Bool, true, false, Option, none, some, ◌≡◌, ◌↔◌, ◌∙◌, refl, sym, ap,
  ◌&&◌, ◌||◌, not, ◌==◌, if◌then◌else◌, if_cases, leb, truthy, Bool-cases, inl, inr, eq_of_beq,
  beq_self, arith, ℕ_eq, String_eq,
}
use gatesentry.Credentials.{
  utf8_byte_length, password_has_valid_byte_length, SetupApi, Page, Blocker,
  password_length_message, blocker, is_disabled, is_ok, posted, submit,
}

length_message : (p : Page) → truthy (password_length_message p) ≡ true
length_message p = ap truthy (cons-append _ _ _)

-- The five tests of the blocker, for any message on the length.
first_test :
    (named given long again same_text : Bool) (m : String)
    → truthy m ≡ true
    → truthy
        (if not named
          then record { message = "Enter an administrator username."; field = "" }
          else if not given
          then record { message = "Enter a password."; field = "" }
          else if given && not long
          then record { message = m; field = "password" }
          else if not again
          then record { message = "Re-enter the password to confirm it."; field = "" }
          else if again && not same_text
          then record { message = "Passwords do not match."; field = "confirmation" }
          else let done : Blocker = record { message = ""; field = "" } in done).message
      ≡ not (named && (given && (long && (again && same_text))))
first_test false given long again same_text m h = refl
first_test true false long again same_text m h = refl
first_test true true false again same_text m h = h
first_test true true true false same_text m h = refl
first_test true true true true false m h = refl
first_test true true true true true m h = refl

truthy_of_length : (s : String) → 12 ≤ utf8_byte_length s → truthy s ≡ true
truthy_of_length Text.[] h = absurd (omega (arith, h))
truthy_of_length (Text.◌∷◌ c s) h = refl

blocked :
    (p : Page)
    → truthy (blocker p).message
      ≡ not (
          truthy p.username
          && (truthy p.password
              && (password_has_valid_byte_length p.password
                  && (truthy p.confirmation && (p.password == p.confirmation)))))
unfolding blocker
blocked p =
    first_test (truthy p.username) (truthy p.password) (password_has_valid_byte_length p.password)
      (truthy p.confirmation) (p.password == p.confirmation) (password_length_message p)
      (length_message p)

-- The form is complete exactly if nothing blocks its button: there is a username, the password has 12
-- to 72 bytes in UTF-8, and it was typed twice.
pub blocker-eq-empty_iff :
    (p : Page)
    → (truthy (blocker p).message ≡ false) ↔ (
        (truthy p.username ≡ true)
        × (12 ≤ utf8_byte_length p.password)
        × (utf8_byte_length p.password ≤ 72)
        × (p.password ≡ p.confirmation))
unfolding password_has_valid_byte_length
blocker-eq-empty_iff p = (
  λ free.
      let all = sym (blocked p) ∙ free in
      (
        ground (arith, all),
        ground (arith, all),
        ground (arith, all),
        eq_of_beq p.password p.confirmation (ground (arith, all)),
      ),
  λ (named, long, short, same_text).
      let given = truthy_of_length p.password long in
      let again = sym (ap truthy same_text) ∙ given in
      blocked p ∙ ground (arith, named, long, short, given, again, same_text, beq_self p.password),
)

-- The server answered, with a status from 200 to 299.
abbrev pub is_success : Option ℕ → Bool
is_success none = false
is_success (some code) = leb 200 code && leb code 299

module _ {S : Type 0} (api : SetupApi S) where
  -- What the page does with an answer of the server.
  abbrev Answered : Page → S × Option ℕ → Page × S → Type 0
  Answered p (t', answer) (q, t) =
      (t ≡ t')
      × (((is_success answer ≡ true)
            × (q.location ≡ "/login")
            × (q.password ≡ "")
            × (q.confirmation ≡ ""))
          ⊎ ((is_success answer ≡ false)
              × (q.location ≡ p.location)
              × (q.password ≡ p.password)
              × (q.confirmation ≡ p.confirmation)
              × (truthy q.error ≡ true)))

  posted-Answered : (p : Page) (r : S × Option ℕ) → Answered p r (posted api r p)
  posted-Answered p (t, none) = (refl, inr (refl, refl, refl, refl, refl))
  posted-Answered p (t, some code) = elim (Bool-cases (is_ok code)) [
    | inl ok ↦
        subst (λ b. Answered p (t, some code) (page b, t)) (sym ok)
          (refl, inl (ok, refl, refl, refl))
    | inr bad ↦
        subst (λ b. Answered p (t, some code) (page b, t)) (sym bad)
          (
            refl,
            inr (
              bad,
              refl,
              refl,
              refl,
              if_cases (λ m. truthy m ≡ true) (code == 409) (λ e. refl) (λ e. refl),
            ),
          )
  ]
    where
      page : Bool → Page
      page ok =
          if ok
          then record p {
            error = "";
            password = "";
            confirmation = "";
            location = "/login";
            submitting = false;
          }
          else record p {
            error =
                if code == 409
                then "Setup was already completed. Sign in instead."
                else "Setup could not be completed.";
            submitting = false;
          }

  -- Where the button can be pressed, the form sends the username and the password as they were typed. After a
  -- status from 200 to 299 both password fields are empty and the sign-in page opens; after any other, or where
  -- the server cannot be reached, the page and both fields stay and an error is shown.
  pub submit_is_answered :
      (p : Page) (s : S)
      → is_disabled p ≡ false
      → ((submit api (p, s)).1 ≡ (api.post p.username p.password s).0)
        × (((is_success (api.post p.username p.password s).1 ≡ true)
              × ((submit api (p, s)).0.location ≡ "/login")
              × ((submit api (p, s)).0.password ≡ "")
              × ((submit api (p, s)).0.confirmation ≡ ""))
            ⊎ ((is_success (api.post p.username p.password s).1 ≡ false)
                × ((submit api (p, s)).0.location ≡ p.location)
                × ((submit api (p, s)).0.password ≡ p.password)
                × ((submit api (p, s)).0.confirmation ≡ p.confirmation)
                × (truthy (submit api (p, s)).0.error ≡ true)))
  unfolding submit is_disabled
  submit_is_answered p s free =
      let complete = sym (blocked p) ∙ not_blocked free in
      let long : (not (password_has_valid_byte_length p.password)) ≡ false =
        ground (arith, complete) in
      let same_text : (not (p.password == p.confirmation)) ≡ false = ground (arith, complete) in
      let sent = posted-Answered p (api.post p.username p.password s) in
      if_cases (λ (x : Page × S). Answered p (api.post p.username p.password s) x)
        (not (password_has_valid_byte_length p.password))
        (λ short. absurd (false≢true (sym long ∙ short)))
        (λ valid.
          if_cases (λ (x : Page × S). Answered p (api.post p.username p.password s) x)
            (not (p.password == p.confirmation))
            (λ other. absurd (false≢true (sym same_text ∙ other))) (λ both. sent))
    where
      not_blocked :
          (not p.status_loaded || (p.submitting || truthy (blocker p).message)) ≡ false
          → truthy (blocker p).message ≡ false
      not_blocked h = ground (arith, h)
