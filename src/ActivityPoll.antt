-- ===== src/ActivityPoll.antt =====
-- The activity poller of a device's detail dialog, ui/src/routes/devices/devicedetail.svelte:
-- `stopActivity`, `loadActivity`, `startActivity`, `close`, `onDestroy` and the two reactive
-- statements. The event loop is a list of events: a prop change, a settled request, a fired timer.
-- A call of `loadActivity` that waits for its response is an entry of `in_flight`; its code after
-- the `await`s is `finish`. Whether an aborted request still delivers is left open: any request
-- may settle in any way, at any time and in any order.
pub mod Invariant
pub mod Settle
pub mod Steps
pub mod Single
pub mod Quiet
pub mod Owner
pub mod Alive
pub mod Progress
use gatesentry.Shared.{
  ℕ, suc, ◌+◌, String, Bool, true, false, Option, none, some, List, [], ◌∷◌, ◌++◌, ◌==◌, ◌&&◌, ◌||◌,
  not, if◌then◌else◌, filter, includes, get_elem?, erase_idx, truthy, ℕ_eq, String_eq,
}

-- A suspended call of `loadActivity`, with what it captured before it waited.
pub record Request : Type 0 where
  pub number : ℕ
  pub device : String  -- requestedDeviceID
  pub generation : ℕ  -- requestGeneration

-- How a request settles: the items of the response, or an error.
pub data Outcome (Item : Type 0) : Type 0 where
  arrived : List Item → Outcome Item
  failed : (aborted : Bool) → (message : String) → Outcome Item

-- The variables of the component, and below them the timers and calls that the browser holds.
-- The id of no device is "".
pub record Poller (Item : Type 0) : Type 0 where
  pub is_open : Bool  -- open
  pub device : String  -- device?.id
  pub destroyed : Bool
  pub detail_loaded_for : String
  pub activity_device : String
  pub generation : ℕ
  pub running : Bool
  pub loading : Bool
  pub loaded : Bool
  pub activity : List Item
  pub error : String
  pub timer : Option ℕ  -- activityTimer
  pub controller : Option ℕ  -- activityController, by the number of its request
  pub pending : List ℕ  -- timers that are set and have not fired
  pub next_timer : ℕ
  pub in_flight : List Request
  pub next_request : ℕ

-- `clearTimeout(activityTimer)`
unfoldable pub clear_timer : Option ℕ → List ℕ → List ℕ
clear_timer none ts = ts
clear_timer (some t) ts = filter (λ u. not (u == t)) ts

module _ {Item : Type 0} where
  unfoldable pub stop_activity : Bool → Poller Item → Poller Item
  stop_activity reset_device s = record s {
    generation = s.generation + 1;
    pending = clear_timer s.timer s.pending;
    timer = none;
    controller = none;
    running = false;
    activity_device = if reset_device then "" else s.activity_device;
  }

  -- The early return of `loadActivity`.
  unfoldable pub may_load : Poller Item → Bool
  may_load s = not (
      s.running
      || s.destroyed
      || not s.is_open
      || not (truthy s.activity_device)
      || not (s.activity_device == s.device))

  -- `loadActivity` up to its first `await`
  unfoldable pub load_activity : Poller Item → Poller Item
  load_activity s =
      if may_load s
      then record s {
        running = true;
        loading = not s.loaded;
        error = "";
        controller = some s.next_request;
        in_flight =
            record {
              number = s.next_request;
              device = s.activity_device;
              generation = s.generation;
            }
            ∷ s.in_flight;
        next_request = s.next_request + 1;
      }
      else s

  -- The test that guards what a settled request may show.
  unfoldable pub is_live : Request → Poller Item → Bool
  is_live r s =
      not s.destroyed && s.is_open && r.generation == s.generation && r.device == s.activity_device

  -- The end of the `try`, or the `catch`.
  unfoldable pub show : Request → Outcome Item → Poller Item → Poller Item
  show r (arrived items) s = if is_live r s then record s { activity = items; loaded = true } else s
  show r (failed aborted message) s =
      if is_live r s && not aborted then record s { error = message } else s

  -- The first half of the `finally`.
  unfoldable pub release : Request → Poller Item → Poller Item
  release r s =
      if r.generation == s.generation
      then record s { running = false; loading = false; controller = none }
      else s

  -- The second half of the `finally`: `activityTimer = setTimeout(loadActivity, 5000)`.
  unfoldable pub schedule : Request → Poller Item → Poller Item
  schedule r s =
      if is_live r s
      then record s {
        timer = some s.next_timer;
        pending = s.next_timer ∷ s.pending;
        next_timer = s.next_timer + 1;
      }
      else s

  -- `loadActivity` after its `await`s.
  unfoldable pub finish : Request → Outcome Item → Poller Item → Poller Item
  finish r o s = schedule r (release r (show r o s))

  unfoldable pub start_activity : String → Poller Item → Poller Item
  start_activity device_id s = load_activity (record (stop_activity false s) {
    activity_device = device_id;
    activity = [];
    loaded = false;
    error = "";
  })

  -- `$: if (open && device?.id && detailLoadedFor !== device.id)`, the part for the activity
  unfoldable pub load_detail : Poller Item → Poller Item
  load_detail s =
      if s.is_open && truthy s.device && not (s.detail_loaded_for == s.device)
      then start_activity s.device (record s { detail_loaded_for = s.device })
      else s

  -- `$: if (!open && activityDeviceID) stopActivity(true)`
  unfoldable pub stop_if_closed : Poller Item → Poller Item
  stop_if_closed s = if not s.is_open && truthy s.activity_device then stop_activity true s else s

  -- The parent sets the props of a component that is still mounted.
  unfoldable pub set_props : Bool → String → Poller Item → Poller Item
  set_props shown device_id s =
      if s.destroyed
      then s
      else stop_if_closed (load_detail (record s { is_open = shown; device = device_id }))

  unfoldable pub destroy : Poller Item → Poller Item
  destroy s = stop_activity true (record s { destroyed = true })

  unfoldable pub settle_at : Option Request → ℕ → Outcome Item → Poller Item → Poller Item
  settle_at none i o s = s
  settle_at (some r) i o s = finish r o (record s { in_flight = erase_idx s.in_flight i })

  -- The waiting call at a place of `in_flight` goes on.
  unfoldable pub settle : ℕ → Outcome Item → Poller Item → Poller Item
  settle i o s = settle_at (get_elem? s.in_flight i) i o s

  -- A pending timer fires: it calls `loadActivity`.
  unfoldable pub fire : ℕ → Poller Item → Poller Item
  fire t s =
      if includes s.pending t
      then load_activity (record s { pending = filter (λ u. not (u == t)) s.pending })
      else s

pub data Event (Item : Type 0) : Type 0 where
  props : Bool → String → Event Item
  close : Event Item
  unmount : Event Item
  settled : ℕ → Outcome Item → Event Item
  fired : ℕ → Event Item

module _ {Item : Type 0} where
  unfoldable pub step : Event Item → Poller Item → Poller Item
  step (props shown device_id) s = set_props shown device_id s
  step close s = stop_activity true s
  step unmount s = destroy s
  step (settled i o) s = settle i o s
  step (fired t) s = fire t s

  unfoldable pub run : List (Event Item) → Poller Item → Poller Item
  run [] s = s
  run (e ∷ es) s = run es (step e s)

  -- The component before its props are first set.
  abbrev pub initial : Poller Item
  initial = record {
    is_open = false;
    device = "";
    destroyed = false;
    detail_loaded_for = "";
    activity_device = "";
    generation = 0;
    running = false;
    loading = false;
    loaded = false;
    activity = [];
    error = "";
    timer = none;
    controller = none;
    pending = [];
    next_timer = 0;
    in_flight = [];
    next_request = 0;
  }
