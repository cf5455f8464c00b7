-- ===== src/LogsPage.antt =====
-- The page of the decision log, ui/src/routes/logs/logs.svelte: its filters, its two reload loops and
-- the rows of its table. The text of a date, the cutting of a text and the encoding of a query are
-- libraries' and parameters.
pub mod Shown
use gatesentry.Shared.{
  ℕ, ◌+◌, ◌*◌, String, Bool, true, false, Option, none, some, List, [], ◌∷◌, ◌⊎◌, inl, inr, ◌&&◌,
  not, ◌==◌, if◌then◌else◌, truthy, or_else, ◌<>◌, decimal, join, ◌++◌, non_empty, String_eq,
}
use gatesentry.Refresh.{Loop, idle, load, refresh, finally, fire, stop}
use gatesentry.DeviceNames.{DeviceNameSource, build_device_name_map, format_device_address}

pub record Decision : Type 0 where
  pub ip : String
  pub time : ℕ
  pub url : String
  pub action : Option String
  pub layer : Option String
  pub reason : Option String
  pub matched_rule : Option String

pub record Row : Type 0 where
  pub id : String
  pub time : String
  pub client : String
  pub url : String
  pub action : String
  pub layer : String
  pub reason : String

pub record Page : Type 0 where
  pub search : String
  pub action_filter : String
  pub layer_filter : String
  pub decisions : List Decision
  pub device_names : List (String × String)
  pub decision_loop : Loop String
  pub device_loop : Loop (Unit {0})
  pub active_filter : String
  pub initial_loaded : Bool
  pub load_error : String
  pub destroyed : Bool

pub data Event : Type 0 where
  type_search select_action select_layer : String → Event
  clear retry decision_timer device_timer leave : Event
  decision_reply : List Decision ⊎ String → Event
  device_reply : Option (List DeviceNameSource) ⊎ String → Event

module _ (encode : String → String) where
  abbrev pub params : Page → List String
  params p =
      (if truthy p.search then ("domain=" <> encode p.search) ∷ [] else [])
      ++ ((if truthy p.action_filter then ("action=" <> p.action_filter) ∷ [] else [])
          ++ (if truthy p.layer_filter then ("layer=" <> p.layer_filter) ∷ [] else []))

  unfoldable pub build_query : Page → String
  build_query p = if non_empty (params p) then "?" <> join "&" (params p) else ""

  unfoldable pub refresh_decisions : Page → Page
  refresh_decisions p = record p {
    decision_loop = refresh p.destroyed (build_query p) p.decision_loop;
  }

  unfoldable pub clear_search : Page → Page
  clear_search p = refresh_decisions (record p { search = "" })

  -- The separator is the character 0.
  abbrev pub next_filter : Page → String
  next_filter p = p.action_filter <> ("\0" <> p.layer_filter)

  -- The reactive statement on the two selects
  unfoldable pub follow_filter : Page → Page
  follow_filter p =
      if not (next_filter p == p.active_filter)
      then refresh_decisions (record p { active_filter = next_filter p })
      else p

  -- What `loadDecisions` shows of a reply to the query that it sent.
  abbrev pub shown : List Decision ⊎ String → Bool → Page → Page
  shown (inl items) current p =
      if not p.destroyed && current
      then record p { decisions = items; load_error = ""; initial_loaded = true }
      else p
  shown (inr message) current p =
      if not p.destroyed && not p.initial_loaded
      then record p { load_error = "Unable to load decisions." }
      else p

  -- `loadDecisions`, after its await
  abbrev pub loaded : Option String → List Decision ⊎ String → Page → Page
  loaded none reply p = p
  loaded (some query) reply p = record (shown reply (query == build_query p) p) {
    decision_loop = finally p.destroyed (build_query p) p.decision_loop;
  }

  abbrev pub devices_shown : Bool → Option (List DeviceNameSource) ⊎ String → Page → Page
  devices_shown false (inl devices) p = record p { device_names = build_device_name_map devices }
  devices_shown true (inl devices) p = p
  devices_shown d (inr message) p = p

  -- `loadDevices`, after its await
  abbrev pub devices_loaded :
      Option (Unit {0}) → Option (List DeviceNameSource) ⊎ String → Page → Page
  devices_loaded none reply p = p
  devices_loaded (some asked) reply p = record (devices_shown p.destroyed reply p) {
    device_loop = finally p.destroyed tt p.device_loop;
  }

  unfoldable pub step : Event → Page → Page
  step (type_search v) p = record p { search = v }
  step (select_action v) p = follow_filter (record p { action_filter = v })
  step (select_layer v) p = follow_filter (record p { layer_filter = v })
  step clear p = clear_search p
  step retry p = refresh_decisions p
  step decision_timer p = record p {
    decision_loop = fire p.destroyed (build_query p) p.decision_loop;
  }
  step device_timer p = record p { device_loop = fire p.destroyed tt p.device_loop }
  step leave p = record p {
    destroyed = true;
    decision_loop = stop p.decision_loop;
    device_loop = stop p.device_loop;
  }
  step (decision_reply reply) p = loaded p.decision_loop.requested reply p
  step (device_reply reply) p = devices_loaded p.device_loop.requested reply p

  unfoldable pub run : List Event → Page → Page
  run [] p = p
  run (e ∷ es) p = run es (step e p)

-- The page after `onMount`.
abbrev pub opened : Page
opened = record {
  search = "";
  action_filter = "";
  layer_filter = "";
  decisions = [];
  device_names = [];
  decision_loop = load false "" idle;
  device_loop = load false tt idle;
  active_filter = "\0";
  initial_loaded = false;
  load_error = "";
  destroyed = false;
}

module _ (format : ℕ → String) (truncate : ℕ → String → String) where
  abbrev pub log_row : List (String × String) → ℕ → Decision → Row
  log_row names index item = record {
    id = item.ip <> (decimal item.time <> (decimal index <> item.url));
    time = format (item.time * 1000);
    client = format_device_address names item.ip;
    url = truncate 50 item.url;
    action = or_else item.action "";
    layer = or_else item.layer "";
    reason = truncate 40 (or_else item.reason (or_else item.matched_rule ""));
  }

  -- The rows from an index on
  abbrev pub rows_from : List (String × String) → ℕ → List Decision → List Row
  rows_from names index [] = []
  rows_from names index (item ∷ rest) = log_row names index item ∷ rows_from names (index + 1) rest

  unfoldable pub logs_to_render : Page → List Row
  logs_to_render p = rows_from p.device_names 0 p.decisions
