-- ===== src/ActivityPoll/Alive.antt =====
-- What keeps the polling of an open dialog alive, and what settling a request leaves alone.
use gatesentry.Shared.{
  ℕ, String, Bool, true, false, ◌≡◌, ◌∙◌, ◌⊎◌, refl, ap, arith, sym, ◌==◌, ◌&&◌, not, if_cases,
  ℕ_eq, String_eq, truthy, non_empty, beq_self,
}
use gatesentry.ActivityPoll.{
  Request, Outcome, arrived, failed, Poller, may_load, load_activity, is_live, show, release,
  schedule, finish, Event, props,
}

-- The variables that settling a request leaves alone.
pub record Core : Type 0 where
  pub destroyed : Bool
  pub is_open : Bool
  pub device : String
  pub detail_loaded_for : String
  pub activity_device : String
  pub generation : ℕ

module _ {Item : Type 0} where
  -- The parent keeps naming a device: it never blanks the prop of a mounted dialog.
  abbrev pub NamesDevice : Event Item → Type 0
  NamesDevice (props shown d) = truthy d ≡ true
  NamesDevice _ = Unit

  -- A request of the current generation waits, or a timer is set.
  abbrev pub IsPolling : Poller Item → Type 0
  IsPolling s = (s.running ≡ true) ⊎ (non_empty s.pending ≡ true)

  -- What keeps the polling alive.
  pub record Alive (s : Poller Item) : Type 0 where
    pub loaded_for : s.is_open ≡ true → s.device ≡ s.detail_loaded_for
    pub polling : truthy s.activity_device ≡ true → IsPolling s
    pub follows : truthy s.activity_device ≡ true → s.activity_device ≡ s.detail_loaded_for

  -- A call of `loadActivity` on a dialog that follows its own device leaves it polling.
  pub load_polls :
      (s : Poller Item)
      → s.destroyed ≡ false
      → s.is_open ≡ true
      → truthy s.activity_device ≡ true
      → s.activity_device ≡ s.device
      → (load_activity s).running ≡ true
  unfolding load_activity may_load
  load_polls s mounted shown named same = ground (arith, beq_self s.device)

  abbrev pub core : Poller Item → Core
  core s = record {
    destroyed = s.destroyed;
    is_open = s.is_open;
    device = s.device;
    detail_loaded_for = s.detail_loaded_for;
    activity_device = s.activity_device;
    generation = s.generation;
  }

  pub core-show : (r : Request) (o : Outcome Item) (s : Poller Item) → core (show r o s) ≡ core s
  unfolding show
  core-show r (arrived items) s =
      if_cases (λ x. core x ≡ core s) (is_live r s) (λ e. refl) (λ e. refl)
  core-show r (failed aborted message) s =
      if_cases (λ x. core x ≡ core s) (is_live r s && not aborted) (λ e. refl) (λ e. refl)

  pub core-release : (r : Request) (s : Poller Item) → core (release r s) ≡ core s
  unfolding release
  core-release r s =
      if_cases (λ x. core x ≡ core s) (r.generation == s.generation) (λ e. refl) (λ e. refl)

  pub core-schedule : (r : Request) (s : Poller Item) → core (schedule r s) ≡ core s
  unfolding schedule
  core-schedule r s = if_cases (λ x. core x ≡ core s) (is_live r s) (λ e. refl) (λ e. refl)

  pub core-finish :
      (r : Request) (o : Outcome Item) (s : Poller Item) → core (finish r o s) ≡ core s
  unfolding finish
  core-finish r o s = core-schedule r _ ∙ core-release r _ ∙ core-show r o s

  pub is_live-core : (r : Request) (s u : Poller Item) → core u ≡ core s → is_live r u ≡ is_live r s
  unfolding is_live
  is_live-core r s u e =
      ap
        (λ (c : Core).
          not c.destroyed
          && c.is_open
          && r.generation == c.generation
          && r.device == c.activity_device)
        e

  -- A live request sets a timer when it settles.
  pub finish_polls :
      (r : Request) (o : Outcome Item) (s : Poller Item)
      → is_live r s ≡ true
      → non_empty (finish r o s).pending ≡ true
  unfolding finish schedule
  finish_polls r o s live =
      let u = release r (show r o s) in
      let live' : is_live r u ≡ true =
        is_live-core r s u (core-release r (show r o s) ∙ core-show r o s) ∙ live in
      rw live'

  pub Alive-core :
      (s u : Poller Item)
      → core u ≡ core s
      → (truthy s.activity_device ≡ true → IsPolling u)
      → (s.is_open ≡ true → s.device ≡ s.detail_loaded_for)
      → (truthy s.activity_device ≡ true → s.activity_device ≡ s.detail_loaded_for)
      → Alive u
  Alive-core s u e polls loaded follows = record {
    loaded_for = λ o.
        ap (λ (c : Core). c.device) e
        ∙ loaded (sym (ap (λ (c : Core). c.is_open) e) ∙ o)
        ∙ sym (ap (λ (c : Core). c.detail_loaded_for) e);
    polling = λ n. polls (rw (ap (λ (c : Core). c.activity_device) e) at n);
    follows = λ n.
        ap (λ (c : Core). c.activity_device) e
        ∙ follows (rw (ap (λ (c : Core). c.activity_device) e) at n)
        ∙ sym (ap (λ (c : Core). c.detail_loaded_for) e);
  }
