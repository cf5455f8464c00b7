-- ===== src/ActivityPoll/Invariant.antt =====
-- The invariant of the activity poller; stopping and loading keep it.
use gatesentry.Shared.{
  ℕ, zero, suc, ◌+◌, ◌≤◌, String, Bool, true, false, Option, none, some, List, [], ◌∷◌, ◌≡◌, refl,
  arith, ◌⊎◌, inl, inr, Bool-cases, ◌==◌, if◌then◌else◌, get_elem?, erase_idx, truthy, All, All-imp,
  eq_of_beq, beq_self, ℕ_eq, String_eq,
}
use gatesentry.ActivityPoll.{Request, Poller, clear_timer, stop_activity, may_load, load_activity}

-- How many of the waiting calls belong to a generation.
abbrev pub live_count : ℕ → List Request → ℕ
live_count g [] = 0
live_count g (r ∷ rs) = let rest = live_count g rs in if r.generation == g then suc rest else rest

-- At most one timer is pending, and it is the one that `activityTimer` names.
abbrev pub IsHeld : Option ℕ → List ℕ → Type 0
IsHeld timer pending = (pending ≡ []) ⊎ ((t : ℕ) × (pending ≡ t ∷ []) × (timer ≡ some t))

module _ {Item : Type 0} where
  pub record Inv (s : Poller Item) : Type 0 where
    pub past : All (λ r. r.generation ≤ s.generation) s.in_flight
    pub single : live_count s.generation s.in_flight ≡ (if s.running then 1 else 0)
    pub own_device :
        All (λ r. r.generation ≡ s.generation → r.device ≡ s.activity_device) s.in_flight
    pub named : All (λ r. truthy r.device ≡ true) s.in_flight
    pub alone : s.running ≡ true → s.pending ≡ []
    pub held : IsHeld s.timer s.pending
    pub idle : s.activity_device ≡ "" → (s.running ≡ false) × (s.pending ≡ [])
    pub gone : s.destroyed ≡ true → s.activity_device ≡ ""
    pub hidden : s.is_open ≡ false → s.activity_device ≡ ""

pub live_count_past :
    (g : ℕ) (rs : List Request) → All (λ r. r.generation ≤ g) rs → live_count (g + 1) rs ≡ 0
live_count_past g [] h = refl
live_count_past g (r ∷ rs) h = ground (arith, live_count_past g rs h.1, h.0)

pub live_count_erase :
    (g i : ℕ) (rs : List Request) (r : Request)
    → get_elem? rs i ≡ some r
    → live_count g rs ≡ (if r.generation == g then 1 else 0) + live_count g (erase_idx rs i)
live_count_erase g i [] r e = cc
live_count_erase g zero (q ∷ rs) r e = ground arith
live_count_erase g (suc i) (q ∷ rs) r e = ground (arith, live_count_erase g i rs r e)

pub not-truthy : (d : String) → d ≡ "" → truthy d ≡ true → ⊥
not-truthy d e h = cc (e, h)

pub clear_timer-held :
    (timer : Option ℕ) (pending : List ℕ) → IsHeld timer pending → clear_timer timer pending ≡ []
unfolding clear_timer
clear_timer-held none pending (inl e) = e
clear_timer-held (some t) pending (inl e) = rw e
clear_timer-held timer pending (inr (t, e, f)) = rw (e, f, clear_timer, beq_self t)

module _ {Item : Type 0} where
  -- Stopping re-establishes the invariant from a part of it.
  pub stop_activity-Inv :
      (reset : Bool) (s : Poller Item)
      → All (λ r. r.generation ≤ s.generation) s.in_flight
      → All (λ r. truthy r.device ≡ true) s.in_flight
      → IsHeld s.timer s.pending
      → (reset ≡ false
          → (s.destroyed ≡ true → s.activity_device ≡ "")
            × (s.is_open ≡ false → s.activity_device ≡ ""))
      → Inv (stop_activity reset s)
  unfolding stop_activity
  stop_activity-Inv reset s past named held kept =
      let none_left = clear_timer-held s.timer s.pending held in
      record {
        past = All-imp _ _ s.in_flight (λ r h. omega arith) past;
        single = live_count_past s.generation s.in_flight past;
        own_device = All-imp _ _ s.in_flight (λ r h e. absurd (omega arith)) past;
        named = named;
        alone = λ e. cc;
        held = inl none_left;
        idle = λ e. (refl, none_left);
        gone = ground arith;
        hidden = ground arith;
      }

  -- What a call of `loadActivity` that goes on has found.
  pub record MayLoad (s : Poller Item) : Type 0 where
    pub idle : s.running ≡ false
    pub mounted : s.destroyed ≡ false
    pub shown : s.is_open ≡ true
    pub named : truthy s.activity_device ≡ true
    pub same : s.activity_device ≡ s.device

  pub may_load_lem : (s : Poller Item) → may_load s ≡ true → MayLoad s
  unfolding may_load
  may_load_lem s e = record {
    idle = ground arith;
    mounted = ground arith;
    shown = ground arith;
    named = ground arith;
    same = eq_of_beq s.activity_device s.device (ground arith);
  }

  pub load_activity-Inv : (s : Poller Item) → Inv s → s.pending ≡ [] → Inv (load_activity s)
  unfolding load_activity
  load_activity-Inv s h quiet = elim (Bool-cases (may_load s)) [
    | inr stop ↦ rw stop h
    | inl go ↦
        let m = may_load_lem s go in
        rw go (record {
          past = (omega arith, h.past);
          single = ground (arith, m.idle, h.single, beq_self s.generation);
          own_device = (λ e. refl, h.own_device);
          named = (m.named, h.named);
          alone = λ e. quiet;
          held = h.held;
          idle = λ e. absurd (not-truthy s.activity_device e m.named);
          gone = h.gone;
          hidden = h.hidden;
        })
  ]
