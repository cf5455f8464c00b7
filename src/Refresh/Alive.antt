-- ===== src/Refresh/Alive.antt =====
-- A loop that runs has one call in flight or one timer; a loop that was stopped has no timer.
use gatesentry.Shared.{Bool, true, false, Option, none, some, ◌≡◌, refl, ◌⊎◌, inl, inr}
use gatesentry.Refresh.{Loop, idle, load, refresh, again, finally, fire}

module _ {K : Type 0} where
  -- A call is in flight and no timer is set, and the key that the call asks for is current or a further call
  -- follows; or a timer is set and nothing else.
  abbrev pub Follows : (K → Type 0) → Option K → Bool → Bool → Type 0
  Follows Current none pending timer = (pending ≡ false) × (timer ≡ true)
  Follows Current (some asked) pending timer = (Current asked ⊎ (pending ≡ true)) × (timer ≡ false)

  -- The loop of a page that is destroyed or not.
  abbrev pub IsLive : (K → Type 0) → (destroyed : Bool) → Loop K → Type 0
  IsLive Current true l = l.timer ≡ false
  IsLive Current false l = Follows Current l.requested l.pending l.timer

  module _ (Current : K → Type 0) (key : K) (now : Current key) where
    load-lem :
        (d pending : Bool)
        → IsLive Current d
            (load d key (record { requested = none; pending = pending; timer = false }))
    unfolding load
    load-lem true pending = refl
    load-lem false pending = (inl now, refl)

    pub load-idle : (d : Bool) → IsLive Current d (load d key idle)
    load-idle d = load-lem d false

    refresh_parts :
        (d : Bool) (requested : Option K) (pending timer : Bool)
        → IsLive Current d
            (refresh d key (record { requested = requested; pending = pending; timer = timer }))
    unfolding refresh
    refresh_parts d none pending timer = load-lem d pending
    refresh_parts true (some asked) pending timer = refl
    refresh_parts false (some asked) pending timer = (inr refl, refl)

    -- After a refresh for a current key the loop is live, whatever it was.
    pub refresh-IsLive : (d : Bool) (l : Loop K) → IsLive Current d (refresh d key l)
    refresh-IsLive d l = refresh_parts d l.requested l.pending l.timer

    fire_parts :
        (d : Bool) (requested : Option K) (pending timer : Bool)
        → IsLive Current d (record { requested = requested; pending = pending; timer = timer })
        → IsLive Current d
            (fire d key (record { requested = requested; pending = pending; timer = timer }))
    unfolding fire
    fire_parts d requested pending false h = h
    fire_parts true requested pending true h = cc
    fire_parts false none pending true h = load-lem false pending
    fire_parts false (some asked) pending true (h, off) = cc

    pub fire-IsLive : (d : Bool) (l : Loop K) → IsLive Current d l → IsLive Current d (fire d key l)
    fire-IsLive d l h = fire_parts d l.requested l.pending l.timer h

    again_parts :
        (pending timer : Bool)
        → timer ≡ false
        → IsLive Current false
            (again pending key (record { requested = none; pending = pending; timer = timer }))
    unfolding load
    again_parts true timer off = (inl now, off)
    again_parts false timer off = (refl, refl)

    finally_parts :
        (d : Bool) (requested : Option K) (pending timer : Bool) (asked : K)
        → requested ≡ some asked
        → IsLive Current d (record { requested = requested; pending = pending; timer = timer })
        → IsLive Current d
            (finally d key (record { requested = requested; pending = pending; timer = timer }))
    finally_parts true requested pending timer asked busy h = h
    finally_parts false none pending timer asked busy h = cc
    finally_parts false (some k) pending timer asked busy (h, off) = again_parts pending timer off

    pub finally-IsLive :
        (d : Bool) (l : Loop K) (asked : K)
        → l.requested ≡ some asked
        → IsLive Current d l
        → IsLive Current d (finally d key l)
    finally-IsLive d l asked busy h = finally_parts d l.requested l.pending l.timer asked busy h
