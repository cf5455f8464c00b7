-- ===== src/StatsPage.antt =====
-- The statistics page, ui/src/routes/stats/stats.svelte: its two reload loops and the switch between
-- windows of time. Responses are parameters. The chart and the number formats are left out.
pub mod Fresh
pub mod Bytes
use gatesentry.Shared.{
  ℕ, String, Bool, true, false, Option, none, some, List, [], ◌∷◌, ◌⊎◌, inl, inr, ◌&&◌, not, ◌==◌,
  if◌then◌else◌, get_elem?, ℕ_eq,
}
use gatesentry.Refresh.{Loop, idle, load, refresh, finally, fire, stop}

-- The days of each window.
abbrev pub windows : List ℕ
windows = 1 ∷ 7 ∷ []

pub record Page (V T : Type 0) : Type 0 where
  pub selected : ℕ
  -- the summary with the index of the window that it was asked for, which the page does not keep
  pub summary : Option (ℕ × V)
  pub load_error : String
  pub summary_loop : Loop ℕ
  pub traffic : Option T
  pub traffic_loop : Loop (Unit {0})
  pub destroyed : Bool

-- What the user does, the timers, and the replies; a reply to the summary depends on what was asked.
pub data Event (V T : Type 0) : Type 0 where
  choose : ℕ → Event V T
  retry summary_timer traffic_timer leave : Event V T
  summary_reply : (ℕ → V ⊎ String) → Event V T
  traffic_reply : T ⊎ String → Event V T

module _ {V T : Type 0} where
  unfoldable pub refresh_summary : Page V T → Page V T
  refresh_summary p = record p { summary_loop = refresh p.destroyed p.selected p.summary_loop }

  unfoldable pub select_window : ℕ → Page V T → Page V T
  select_window index p = refresh_summary (record p { selected = index })

  -- What `load` shows of a reply for the window that it asked for.
  abbrev pub shown : ℕ → V ⊎ String → Page V T → Page V T
  shown requested (inl value) p = record p { summary = some (requested, value); load_error = "" }
  shown requested (inr message) p = record p { load_error = "Unable to load statistics." }

  -- `load`, after its await
  abbrev pub loaded : Option ℕ → (ℕ → V ⊎ String) → Page V T → Page V T
  loaded none reply p = p
  loaded (some requested) reply p =
      let q =
        if not p.destroyed && (requested == p.selected)
        then shown requested (reply requested) p
        else p in
      record q { summary_loop = finally p.destroyed p.selected p.summary_loop }

  abbrev pub traffic_shown : Bool → T ⊎ String → Page V T → Page V T
  traffic_shown false (inl value) p = record p { traffic = some value }
  traffic_shown true (inl value) p = p
  traffic_shown d (inr message) p = p

  -- `loadTraffic`, after its await
  abbrev pub traffic_loaded : Option (Unit {0}) → T ⊎ String → Page V T → Page V T
  traffic_loaded none reply p = p
  traffic_loaded (some asked) reply p = record (traffic_shown p.destroyed reply p) {
    traffic_loop = finally p.destroyed tt p.traffic_loop;
  }

  unfoldable pub step : Event V T → Page V T → Page V T
  step (choose index) p = select_window index p
  step retry p = refresh_summary p
  step summary_timer p = record p { summary_loop = fire p.destroyed p.selected p.summary_loop }
  step traffic_timer p = record p { traffic_loop = fire p.destroyed tt p.traffic_loop }
  step leave p = record p {
    destroyed = true;
    summary_loop = stop p.summary_loop;
    traffic_loop = stop p.traffic_loop;
  }
  step (summary_reply reply) p = loaded p.summary_loop.requested reply p
  step (traffic_reply reply) p = traffic_loaded p.traffic_loop.requested reply p

  unfoldable pub run : List (Event V T) → Page V T → Page V T
  run [] p = p
  run (e ∷ es) p = run es (step e p)

  -- The page after `onMount`.
  abbrev pub opened : Page V T
  opened = record {
    selected = 1;
    summary = none;
    load_error = "";
    summary_loop = load false 1 idle;
    traffic = none;
    traffic_loop = load false tt idle;
    destroyed = false;
  }
