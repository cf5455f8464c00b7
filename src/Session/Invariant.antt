-- ===== src/Session/Invariant.antt =====
-- What holds of the session whatever the user does and whichever replies arrive.
use mathlib.Core.Bool.{false≢true}
use mathlib.Core.Option.{some-injective}
use Prim.Native.String as Text
use gatesentry.Shared.{
  ℕ, ◌+◌, String, Bool, true, false, Option, some, List, [], ◌∷◌, ◌++◌, ◌≡◌, ◌∙◌, refl, sym, ap,
  subst, ◌⊎◌, inl, inr, not, ◌==◌, if_cases, or_else, get_elem?, erase_idx, arith, zero, suc, ℕ_eq,
  Option-cases,
}
use gatesentry.Session.{
  AppState, checking, setup, login, authenticated, error, Purpose, setup_status, verify, token,
  page, Call, Body, Reply, rejected, answered, Session, is_ok, get_headers, set_logged_in,
  set_logged_out, send, call_result, is_unauthorized, unauthorize, check_session, status_read,
  settle_status, verified, settle_verify, handle_login, accepted, signed_in, settle_token, cancel,
  logout, Event, retry, sign_in, clear, sign_out, request, arrive, settle, settle_at, step, run,
  opened,
}

-- The calls of a check of the session, and those of a sign-in.
abbrev check_weight : Purpose → ℕ
check_weight setup_status = 1
check_weight verify = 1
check_weight token = 0
check_weight page = 0

abbrev token_weight : Purpose → ℕ
token_weight token = 1
token_weight _ = 0

abbrev pub total : (Purpose → ℕ) → List Call → ℕ
total weight [] = 0
total weight (c ∷ cs) = weight c.purpose + total weight cs

abbrev pub checks : List Call → ℕ
checks = total check_weight

-- How many calls of a check wait in a state of the application.
abbrev pub due : AppState → ℕ
due checking = 1
due _ = 0

-- The states in which a sign-in may wait.
abbrev signing : AppState → Bool
signing login = true
signing authenticated = true
signing _ = false

-- The client is logged out, or the application shows its pages and the client's token is the stored one.
abbrev pub IsConsistent : AppState → Bool → Option String → Option String → Type 0
IsConsistent state logged_in jwt stored =
    (logged_in ≡ false) ⊎ ((state ≡ authenticated) × (jwt ≡ some (or_else stored "")))

abbrev Facts : ℕ → ℕ → AppState → Bool → Option String → Option String → Type 0
Facts n m state logged_in jwt stored =
    (n ≡ due state) × ((m ≡ 0) ⊎ (signing state ≡ true)) × IsConsistent state logged_in jwt stored

abbrev IsSession : Session → Type 0
IsSession s =
    Facts (total check_weight s.calls) (total token_weight s.calls) s.state s.logged_in s.jwt_token
      s.stored

total-append :
    (weight : Purpose → ℕ) (cs : List Call) (c : Call)
    → total weight (cs ++ c ∷ []) ≡ total weight cs + weight c.purpose
total-append weight [] c = omega arith
total-append weight (d ∷ cs) c = omega (arith, total-append weight cs c)

total-erase_idx :
    (weight : Purpose → ℕ) (cs : List Call) (i : ℕ) (c : Call)
    → get_elem? cs i ≡ some c
    → total weight cs ≡ weight c.purpose + total weight (erase_idx cs i)
total-erase_idx weight [] i c h = cc
total-erase_idx weight (d ∷ cs) zero c h =
    ap (λ x. weight x.purpose + total weight cs) (some-injective _ _ h)
total-erase_idx weight (d ∷ cs) (suc i) c h = omega (arith, total-erase_idx weight cs i c h)

not_signing :
    (state : AppState) (m : ℕ) → signing state ≡ false → (m ≡ 0) ⊎ (signing state ≡ true) → m ≡ 0
not_signing state m out (inl h) = h
not_signing state m out (inr h) = absurd (false≢true (sym out ∙ h))

logged_out :
    (state : AppState) (l : Bool) (jwt stored : Option String)
    → signing state ≡ false
    → IsConsistent state l jwt stored
    → l ≡ false
logged_out state l jwt stored out (inl h) = h
logged_out state l jwt stored out (inr (h, k)) = absurd (false≢true (sym out ∙ ap signing h))

-- A session in which no check waits.
abbrev IsIdle : Session → Type 0
IsIdle s =
    (total check_weight s.calls ≡ 0) × (total token_weight s.calls ≡ 0) × (s.logged_in ≡ false)

check_session-IsSession : (s : Session) → IsIdle s → IsSession (check_session s)
unfolding check_session
check_session-IsSession s (n, m, l) = (
  total-append check_weight s.calls _ ∙ omega arith,
  inl (total-append token_weight s.calls _ ∙ omega arith),
  inl l,
)

send_verify-IsSession : (s : Session) → IsIdle s → s.state ≡ checking → IsSession (send verify s)
unfolding send get_headers
send_verify-IsSession s (n, m, l) now = (
  total-append check_weight s.calls _ ∙ (omega arith ∙ sym (ap due now)),
  inl (total-append token_weight s.calls _ ∙ omega arith),
  inl l,
)

status_read-IsSession :
    (b : Body ⊎ String) (s : Session) → IsIdle s → s.state ≡ checking → IsSession (status_read b s)
unfolding set_logged_out
status_read-IsSession (inr message) s (n, m, l) now = (n, inl m, inl l)
status_read-IsSession (inl body) s (n, m, l) now =
    if_cases IsSession (not body.complete) (λ fresh. (n, inl m, inl refl))
      (λ done. send_verify-IsSession s (n, m, l) now)

settle_status-IsSession :
    (r : Reply) (s : Session) → IsIdle s → s.state ≡ checking → IsSession (settle_status r s)
unfolding settle_status
settle_status-IsSession (rejected message) s (n, m, l) now = (n, inl m, inl l)
settle_status-IsSession (answered status body) s (n, m, l) now =
    if_cases IsSession (not (is_ok status)) (λ bad. (n, inl m, inl l))
      (λ ok. status_read-IsSession body s (n, m, l) now)

verified-IsSession : (b : Body ⊎ String) (s : Session) → IsIdle s → IsSession (verified b s)
unfolding set_logged_in
verified-IsSession (inr message) s (n, m, l) = (n, inl m, inl l)
verified-IsSession (inl body) s (n, m, l) = (n, inr refl, inr (refl, refl))

settle_verify-IsSession : (r : Reply) (s : Session) → IsIdle s → IsSession (settle_verify r s)
unfolding settle_verify set_logged_out
settle_verify-IsSession (rejected message) s (n, m, l) = (n, inl m, inl l)
settle_verify-IsSession (answered status body) s (n, m, l) =
    if_cases IsSession (status == 200) (λ ok. verified-IsSession body s (n, m, l))
      (λ bad. (n, inr refl, inl refl))

unauthorize-IsSession : (r : Reply) (s : Session) → IsSession s → IsSession (unauthorize r s)
unfolding unauthorize set_logged_out
unauthorize-IsSession r s (n, m, l) =
    if_cases IsSession (is_unauthorized r) (λ bad. (n, m, inl refl)) (λ ok. (n, m, l))

due-eq-one : (state : AppState) (n : ℕ) → 1 + n ≡ due state → state ≡ checking
due-eq-one checking n h = refl
due-eq-one setup n h = absurd (omega (arith, h))
due-eq-one login n h = absurd (omega (arith, h))
due-eq-one authenticated n h = absurd (omega (arith, h))
due-eq-one error n h = absurd (omega (arith, h))

due-signing : (state : AppState) → signing state ≡ true → due state ≡ 0
due-signing checking h = absurd (false≢true h)
due-signing setup h = refl
due-signing login h = refl
due-signing authenticated h = refl
due-signing error h = refl

IsIdle-of_check :
    (s : Session)
    → 1 + total check_weight s.calls ≡ due s.state
    → (total token_weight s.calls ≡ 0) ⊎ (signing s.state ≡ true)
    → IsConsistent s.state s.logged_in s.jwt_token s.stored
    → IsIdle s × (s.state ≡ checking)
IsIdle-of_check s n m l =
    let now = due-eq-one s.state _ n in
    (
      (
        omega (arith, n ∙ ap due now),
        not_signing s.state _ (ap signing now) m,
        logged_out s.state s.logged_in s.jwt_token s.stored (ap signing now) l,
      ),
      now,
    )

or_else-empty : (t : String) → or_else (some t) "" ≡ t
or_else-empty Text.[] = refl
or_else-empty (Text.◌∷◌ c t) = refl

module _ (translator : String → String) where
  accepted-IsSession :
      (ok : Bool) (body : Body) (s : Session)
      → signing s.state ≡ true
      → IsSession s
      → IsSession (accepted translator ok body s)
  unfolding set_logged_in
  accepted-IsSession true body s open_form (n, m, l) = (
    n ∙ due-signing s.state open_form,
    inr refl,
    inr (refl, ap some (sym (or_else-empty body.jwtoken))),
  )
  accepted-IsSession false body s open_form (n, m, l) = (n, m, l)

  signed_in-IsSession :
      (b : Body ⊎ String) (s : Session)
      → signing s.state ≡ true
      → IsSession s
      → IsSession (signed_in translator b s)
  signed_in-IsSession (inl body) s open_form h =
      accepted-IsSession body.validated body s open_form h
  signed_in-IsSession (inr message) s open_form (n, m, l) = (n, m, l)

  unauthorize-state : (r : Reply) (s : Session) → (unauthorize r s).state ≡ s.state
  unfolding unauthorize set_logged_out
  unauthorize-state r s =
      if_cases (λ (x : Session). x.state ≡ s.state) (is_unauthorized r) (λ bad. refl) (λ ok. refl)

  settle-IsSession :
      (p : Purpose) (a : Option String) (r : Reply) (s : Session)
      → check_weight p + total check_weight s.calls ≡ due s.state
      → (token_weight p + total token_weight s.calls ≡ 0) ⊎ (signing s.state ≡ true)
      → IsConsistent s.state s.logged_in s.jwt_token s.stored
      → IsSession (settle translator (record { purpose = p; authorization = a }) r s)
  unfolding settle_token
  settle-IsSession setup_status a r s n m l =
      let (idle, now) =
        IsIdle-of_check s n (elim m [ inl h ↦ inl (omega (arith, h)) | inr h ↦ inr h ]) l in
      settle_status-IsSession r s idle now
  settle-IsSession verify a r s n m l =
      let (idle, now) =
        IsIdle-of_check s n (elim m [ inl h ↦ inl (omega (arith, h)) | inr h ↦ inr h ]) l in
      settle_verify-IsSession r s idle
  settle-IsSession token a r s n m l =
      let may : signing s.state ≡ true = elim m [ inl h ↦ absurd (omega (arith, h)) | inr h ↦ h ] in
      signed_in-IsSession (call_result r) (unauthorize r s)
        (ap signing (unauthorize-state r s) ∙ may)
        (unauthorize-IsSession r s (omega (arith, n), inr may, l))
  settle-IsSession page a r s n m l =
      unauthorize-IsSession r s
        (omega (arith, n), elim m [ inl h ↦ inl (omega (arith, h)) | inr h ↦ inr h ], l)

  settle_at-IsSession :
      (i : ℕ) (r : Reply) (s : Session)
      → IsSession s
      → IsSession (settle_at translator (get_elem? s.calls i) i r s)
  settle_at-IsSession i r s (n, m, l) = elim (Option-cases (get_elem? s.calls i)) [
    | inl missing ↦ subst (λ o. IsSession (settle_at translator o i r s)) (sym missing) (n, m, l)
    | inr (c, found) ↦
        subst (λ o. IsSession (settle_at translator o i r s)) (sym found)
          (settle-IsSession c.purpose c.authorization r (record s { calls = erase_idx s.calls i })
            (sym (total-erase_idx check_weight s.calls i c found) ∙ n)
            (subst (λ k. (k ≡ 0) ⊎ (signing s.state ≡ true))
              (total-erase_idx token_weight s.calls i c found) m)
            l)
  ]

  retry-IsSession :
      (state : AppState) (s : Session)
      → s.state ≡ state
      → IsSession s
      → IsSession (elim state [ error ↦ check_session s | _ ↦ s ])
  retry-IsSession error s now (n, m, l) = check_session-IsSession s (
    n ∙ ap due now,
    not_signing s.state _ (ap signing now) m,
    logged_out s.state s.logged_in s.jwt_token s.stored (ap signing now) l,
  )
  retry-IsSession checking s now h = h
  retry-IsSession setup s now h = h
  retry-IsSession login s now h = h
  retry-IsSession authenticated s now h = h

  sign_in-IsSession :
      (state : AppState) (s : Session)
      → s.state ≡ state
      → IsSession s
      → IsSession (elim state [ login ↦ handle_login s | _ ↦ s ])
  unfolding handle_login send get_headers
  sign_in-IsSession login s now (n, m, l) =
      (total-append check_weight s.calls _ ∙ (omega arith ∙ n), inr (ap signing now), l)
  sign_in-IsSession error s now h = h
  sign_in-IsSession checking s now h = h
  sign_in-IsSession setup s now h = h
  sign_in-IsSession authenticated s now h = h

  clear-IsSession :
      (state : AppState) (s : Session)
      → IsSession s
      → IsSession (elim state [ login ↦ cancel s | _ ↦ s ])
  unfolding cancel
  clear-IsSession login s h = h
  clear-IsSession error s h = h
  clear-IsSession checking s h = h
  clear-IsSession setup s h = h
  clear-IsSession authenticated s h = h

  sign_out-IsSession :
      (state : AppState) (s : Session)
      → s.state ≡ state
      → IsSession s
      → IsSession (elim state [ authenticated ↦ logout s | _ ↦ s ])
  unfolding logout set_logged_out
  sign_out-IsSession authenticated s now (n, m, l) = (n ∙ ap due now, inr refl, inl refl)
  sign_out-IsSession error s now h = h
  sign_out-IsSession checking s now h = h
  sign_out-IsSession setup s now h = h
  sign_out-IsSession login s now h = h

  request-IsSession : (s : Session) → IsSession s → IsSession (send page s)
  unfolding send get_headers
  request-IsSession s (n, m, l) = (
    total-append check_weight s.calls _ ∙ (omega arith ∙ n),
    subst (λ k. (k ≡ 0) ⊎ (signing s.state ≡ true))
        (sym (total-append token_weight s.calls _ ∙ omega arith)) m,
    l,
  )

  step-IsSession : (e : Event) (s : Session) → IsSession s → IsSession (step translator e s)
  unfolding step
  step-IsSession retry s h = retry-IsSession s.state s refl h
  step-IsSession sign_in s h = sign_in-IsSession s.state s refl h
  step-IsSession clear s h = clear-IsSession s.state s h
  step-IsSession sign_out s h = sign_out-IsSession s.state s refl h
  step-IsSession request s h = request-IsSession s h
  step-IsSession (arrive i r) s h = settle_at-IsSession i r s h

  run-IsSession : (es : List Event) (s : Session) → IsSession s → IsSession (run translator es s)
  unfolding run
  run-IsSession [] s h = h
  run-IsSession (e ∷ es) s h = run-IsSession es (step translator e s) (step-IsSession e s h)

  -- From the start, in whatever order the user acts and replies arrive, exactly one call of a check
  -- waits while the application checks the session, and none in any other state; and the client is
  -- logged in only while the pages are shown, with the token of the local storage.
  pub run-IsConsistent :
      (es : List Event) (stored : Option String) (path : String)
      → let s = run translator es (opened stored path) in
        (checks s.calls ≡ due s.state) × IsConsistent s.state s.logged_in s.jwt_token s.stored
  run-IsConsistent es stored path =
      let (n, m, l) =
        run-IsSession es (opened stored path) (check_session-IsSession _ (refl, refl, refl)) in
      (n, l)
