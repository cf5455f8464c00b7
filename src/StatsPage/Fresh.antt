-- ===== src/StatsPage/Fresh.antt =====
-- Which figures the page shows, and that its two loops go on.
use mathlib.Core.Bool.{false≢true}
use mathlib.Core.Option.{some-injective}
use gatesentry.Shared.{
  ℕ, String, Bool, true, false, Option, none, some, List, [], ◌∷◌, ◌≡◌, ◌∙◌, refl, sym, ap, subst,
  ◌⊎◌, inl, inr, ◌&&◌, not, ◌==◌, ◌||◌, if_cases, truthy, Bool-cases, ℕ_eq, eq_of_beq, beq_self,
  arith, All,
}
use gatesentry.Refresh.{Loop, is_some, load, refresh, finally, fire, stop}
use gatesentry.Refresh.Alive.{IsLive, refresh-IsLive, fire-IsLive, finally-IsLive}
use gatesentry.StatsPage.{
  Page, Event, choose, retry, summary_timer, traffic_timer, leave, summary_reply, traffic_reply,
  refresh_summary, select_window, shown, loaded, traffic_shown, traffic_loaded, step, run, opened,
}

requested-fire :
    (d : Bool) (key : ℕ) (l : Loop ℕ)
    → is_some l.requested ≡ true
    → is_some (fire d key l).requested ≡ true
unfolding fire load
requested-fire d key l h =
    if_cases (λ (x : Loop ℕ). is_some x.requested ≡ true) l.timer
      (λ on.
        if_cases (λ (x : Loop ℕ). is_some x.requested ≡ true) (is_some l.requested || d) (λ busy. h)
          (λ free. refl))
      (λ off. h)

requested_parts :
    (key : ℕ) (r : Option ℕ) (q t : Bool)
    → is_some (refresh false key (record { requested = r; pending = q; timer = t })).requested
      ≡ true
unfolding refresh load
requested_parts key none q t = refl
requested_parts key (some k) q t = refl

requested-refresh : (key : ℕ) (l : Loop ℕ) → is_some (refresh false key l).requested ≡ true
requested-refresh key l = requested_parts key l.requested l.pending l.timer

-- A call for another window is followed by one.
requested-finally :
    (key k : ℕ) (d : Bool) (r : Option ℕ) (q t : Bool)
    → d ≡ false
    → r ≡ some k
    → (k == key) ≡ false
    → IsLive (λ j. j ≡ key) d (record { requested = r; pending = q; timer = t })
    → is_some (finally d key (record { requested = r; pending = q; timer = t })).requested ≡ true
unfolding load
requested-finally key k true r q t here e other h = cc
requested-finally key k false none q t here e other h = cc
requested-finally key k false (some j) true t here e other h = refl
requested-finally key k false (some j) false t here e other (h, off) = absurd (elim h [
  | inl same ↦
      false≢true
        (sym other ∙ (ap (λ i. i == key) (sym (some-injective _ _ e) ∙ same) ∙ beq_self key))
  | inr more ↦ false≢true more
])

-- The summary is of the selected window.
abbrev pub IsOf {ℓ} : {V : Type ℓ} → ℕ → Option (ℕ × V) → Type 0
IsOf selected none = ⊥
IsOf selected (some (index, value)) = index ≡ selected

module _ {V T : Type 0} where
  -- The page was left; or it shows the selected window, a call is in flight, or an error is shown.
  abbrev pub IsFresh : Page V T → Type 0
  IsFresh p =
      (p.destroyed ≡ true)
      ⊎ (IsOf p.selected p.summary
          ⊎ ((is_some p.summary_loop.requested ≡ true) ⊎ (truthy p.load_error ≡ true)))

  abbrev pub IsGoing : Page V T → Type 0
  IsGoing p =
      IsLive (λ k. k ≡ p.selected) p.destroyed p.summary_loop
      × IsLive (λ (k : Unit {0}). Unit {0}) p.destroyed p.traffic_loop

  abbrev IsGood : Page V T → Type 0
  IsGood p = IsGoing p × IsFresh p

  -- A refresh for the selected window, whatever was before.
  refresh-IsGood :
      (p : Page V T)
      → IsLive (λ (k : Unit {0}). Unit {0}) p.destroyed p.traffic_loop
      → IsGood (refresh_summary p)
  unfolding refresh_summary
  refresh-IsGood p t = (
    (refresh-IsLive (λ k. k ≡ p.selected) p.selected refl p.destroyed p.summary_loop, t),
    (elim (Bool-cases p.destroyed) [
      | inl gone ↦ inl gone
      | inr here ↦ inr (
          inr (
            inl (
              ap (λ d. is_some (refresh d p.selected p.summary_loop).requested) here
              ∙ requested-refresh p.selected p.summary_loop)))
    ]),
  )

  shown-IsGood :
      (k : ℕ) (r : V ⊎ String) (p : Page V T) (l : Loop ℕ)
      → k ≡ p.selected
      → IsLive (λ j. j ≡ p.selected) p.destroyed l
      → IsLive (λ (j : Unit {0}). Unit {0}) p.destroyed p.traffic_loop
      → IsGood (record (shown k r p) { summary_loop = l })
  shown-IsGood k (inl value) p l same s t = ((s, t), inr (inl same))
  shown-IsGood k (inr message) p l same s t = ((s, t), inr (inr (inr refl)))

  loaded-IsGood :
      (r : Option ℕ) (reply : ℕ → V ⊎ String) (p : Page V T)
      → p.summary_loop.requested ≡ r
      → IsGood p
      → IsGood (loaded r reply p)
  loaded-IsGood none reply p e h = h
  loaded-IsGood (some k) reply p e ((s, t), f) =
      let l = finally p.destroyed p.selected p.summary_loop in
      let live =
        finally-IsLive (λ j. j ≡ p.selected) p.selected refl p.destroyed p.summary_loop k e s in
      if_cases (λ (q : Page V T). IsGood (record q { summary_loop = l }))
        (not p.destroyed && (k == p.selected))
        (λ seen.
          shown-IsGood k (reply k) p l (eq_of_beq k p.selected (ground (arith, seen))) live t)
        (λ hidden. (
          (live, t),
          elim (Bool-cases p.destroyed) [
            | inl gone ↦ inl gone
            | inr here ↦ inr (
                inr (
                  inl (
                    requested-finally p.selected k p.destroyed p.summary_loop.requested
                      p.summary_loop.pending p.summary_loop.timer here e
                      (ground (arith, hidden, here)) s)))
          ],
        ))

  traffic_shown-IsGood :
      (d : Bool) (reply : T ⊎ String) (p : Page V T) (l : Loop (Unit {0}))
      → IsGood (record p { traffic_loop = l })
      → IsGood (record (traffic_shown d reply p) { traffic_loop = l })
  traffic_shown-IsGood false (inl value) p l h = h
  traffic_shown-IsGood true (inl value) p l h = h
  traffic_shown-IsGood d (inr message) p l h = h

  traffic_loaded-IsGood :
      (r : Option (Unit {0})) (reply : T ⊎ String) (p : Page V T)
      → p.traffic_loop.requested ≡ r
      → IsGood p
      → IsGood (traffic_loaded r reply p)
  traffic_loaded-IsGood none reply p e h = h
  traffic_loaded-IsGood (some asked) reply p e ((s, t), f) =
      traffic_shown-IsGood p.destroyed reply p (finally p.destroyed tt p.traffic_loop) (
        (s, finally-IsLive (λ (j : Unit {0}). Unit {0}) tt tt p.destroyed p.traffic_loop asked e t),
        f,
      )

  step-IsGood : (e : Event V T) (p : Page V T) → IsGood p → IsGood (step e p)
  unfolding step
  step-IsGood (choose index) p ((s, t), f) =
      unfold select_window in refresh-IsGood (record p { selected = index }) t
  step-IsGood retry p ((s, t), f) = refresh-IsGood p t
  step-IsGood summary_timer p ((s, t), f) = (
    (fire-IsLive (λ j. j ≡ p.selected) p.selected refl p.destroyed p.summary_loop s, t),
    elim f [
      | inl gone ↦ inl gone
      | inr (inl current) ↦ inr (inl current)
      | inr (inr (inl busy)) ↦
          inr (inr (inl (requested-fire p.destroyed p.selected p.summary_loop busy)))
      | inr (inr (inr wrong)) ↦ inr (inr (inr wrong))
    ],
  )
  step-IsGood traffic_timer p ((s, t), f) =
      ((s, fire-IsLive (λ (j : Unit {0}). Unit {0}) tt tt p.destroyed p.traffic_loop t), f)
  step-IsGood leave p ((s, t), f) = unfold stop in ((refl, refl), inl refl)
  step-IsGood (summary_reply reply) p h = loaded-IsGood p.summary_loop.requested reply p refl h
  step-IsGood (traffic_reply reply) p h =
      traffic_loaded-IsGood p.traffic_loop.requested reply p refl h

  opened-IsGood : (p : Page V T) → p ≡ opened → IsGood p
  unfolding load
  opened-IsGood p e =
      subst IsGood (sym e) (((inl refl, refl), (inl tt, refl)), inr (inr (inl refl)))

  run-IsGood : (es : List (Event V T)) (p : Page V T) → IsGood p → IsGood (run es p)
  unfolding run
  run-IsGood [] p h = h
  run-IsGood (e ∷ es) p h = run-IsGood es (step e p) (step-IsGood e p h)

  -- Whatever the user does and however replies and timers interleave, until the page is left it shows
  -- figures of the selected window, or a call is in flight, or an error is shown.
  run-IsFresh : (es : List (Event V T)) → IsFresh (run es (opened {V = V} {T = T}))
  run-IsFresh es = (run-IsGood es opened (opened-IsGood opened refl)).1

  -- Nobody chooses a window.
  abbrev pub KeepsWindow : Event V T → Type 0
  KeepsWindow (choose index) = ⊥
  KeepsWindow _ = Unit

  -- The figures are of the window that is selected.
  abbrev pub IsCurrent : Page V T → Type 0
  IsCurrent p = IsOf p.selected p.summary

  shown-IsCurrent :
      (k : ℕ) (r : V ⊎ String) (p : Page V T)
      → k ≡ p.selected
      → IsCurrent p
      → IsCurrent (shown k r p)
  shown-IsCurrent k (inl value) p same h = same
  shown-IsCurrent k (inr message) p same h = h

  loaded-IsCurrent :
      (r : Option ℕ) (reply : ℕ → V ⊎ String) (p : Page V T)
      → IsCurrent p
      → IsCurrent (loaded r reply p)
  loaded-IsCurrent none reply p h = h
  loaded-IsCurrent (some k) reply p h =
      if_cases
        (λ (q : Page V T).
          IsCurrent (record q { summary_loop = finally p.destroyed p.selected p.summary_loop }))
        (not p.destroyed && (k == p.selected))
        (λ seen. shown-IsCurrent k (reply k) p (eq_of_beq k p.selected (ground (arith, seen))) h)
        (λ hidden. h)

  traffic_loaded-IsCurrent :
      (r : Option (Unit {0})) (d : Bool) (reply : T ⊎ String) (p : Page V T)
      → p.destroyed ≡ d
      → IsCurrent p
      → IsCurrent (traffic_loaded r reply p)
  traffic_loaded-IsCurrent none d reply p e h = h
  traffic_loaded-IsCurrent (some asked) true (inl value) p e h = rw e h
  traffic_loaded-IsCurrent (some asked) false (inl value) p e h = rw e h
  traffic_loaded-IsCurrent (some asked) d (inr message) p e h = h

  step-IsCurrent :
      (e : Event V T) (p : Page V T) → KeepsWindow e → IsCurrent p → IsCurrent (step e p)
  unfolding step
  step-IsCurrent (choose index) p keeps h = absurd keeps
  step-IsCurrent retry p keeps h = unfold refresh_summary in h
  step-IsCurrent summary_timer p keeps h = h
  step-IsCurrent traffic_timer p keeps h = h
  step-IsCurrent leave p keeps h = h
  step-IsCurrent (summary_reply reply) p keeps h =
      loaded-IsCurrent p.summary_loop.requested reply p h
  step-IsCurrent (traffic_reply reply) p keeps h =
      traffic_loaded-IsCurrent p.traffic_loop.requested p.destroyed reply p refl h

  -- Once the page shows figures of the selected window, it goes on to show figures of that window until
  -- another is chosen: no reply to a call for a window that was selected before replaces them, however
  -- replies and timers interleave.
  pub run-IsCurrent :
      (es : List (Event V T)) (p : Page V T)
      → All KeepsWindow es
      → IsCurrent p
      → IsCurrent (run es p)
  unfolding run
  run-IsCurrent [] p keeps h = h
  run-IsCurrent (e ∷ es) p keeps h =
      run-IsCurrent es (step e p) keeps.1 (step-IsCurrent e p keeps.0 h)
