-- ===== src/Refresh.antt =====
-- The loop by which a page reloads its data, as ui/src/routes/stats/stats.svelte and
-- ui/src/routes/logs/logs.svelte write it: one call at a time, a timer after it, and a flag for a
-- change during a call. A key says what a call asks for.
pub mod Alive
use gatesentry.Shared.{Bool, true, false, Option, none, some, ◌||◌, if◌then◌else◌}

pub record Loop (K : Type 0) : Type 0 where
  -- what the call in flight asked for; the loading flag is whether there is one
  pub requested : Option K
  pub pending : Bool
  pub timer : Bool

abbrev pub is_some {ℓ} : {A : Type ℓ} → Option A → Bool
is_some none = false
is_some (some a) = true

module _ {K : Type 0} where
  -- Nothing was loaded yet.
  abbrev pub idle : Loop K
  idle = record { requested = none; pending = false; timer = false }

  -- `load`, up to its await
  unfoldable pub load : (destroyed : Bool) → K → Loop K → Loop K
  load destroyed key l =
      if is_some l.requested || destroyed then l else record l { requested = some key }

  -- `refresh`: the timer is cleared first.
  unfoldable pub refresh : (destroyed : Bool) → K → Loop K → Loop K
  refresh destroyed key l =
      if is_some l.requested
      then record l { timer = false; pending = true }
      else load destroyed key (record l { timer = false })

  abbrev pub again : Bool → K → Loop K → Loop K
  again true key l = load false key (record l { pending = false })
  again false key l = record l { timer = true }

  -- The `finally` block of `load`.
  abbrev pub finally : (destroyed : Bool) → K → Loop K → Loop K
  finally true key l = record l { requested = none }
  finally false key l = again l.pending key (record l { requested = none })

  -- The timer fires, if it is set.
  unfoldable pub fire : (destroyed : Bool) → K → Loop K → Loop K
  fire destroyed key l = if l.timer then load destroyed key (record l { timer = false }) else l

  -- `onDestroy` clears the timer.
  unfoldable pub stop : Loop K → Loop K
  stop l = record l { timer = false }
