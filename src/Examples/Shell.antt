-- ===== src/Examples/Shell.antt =====
-- The session and the routes on concrete inputs.
use gatesentry.Shared.{
  ◌≤◌, String, true, false, none, some, List, [], ◌∷◌, ◌≡◌, refl, inl, inr, String_eq,
}
use gatesentry.Session.{
  Event, Body, sign_in, sign_out, request, arrive, answered, run, step, opened, check_session, send,
  set_logged_in, settle_status, settle_verify, set_logged_out, unauthorize, logout, handle_login,
}
use gatesentry.Session.Invariant.{checks, due, IsConsistent, run-IsConsistent}
use gatesentry.Navigation.{menu_items, route_href, current_route, get_base_path}
use gatesentry.Navigation.Routes.{current_route-route_href}
use gatesentry.Navigation.Active.{active_count, active_count-le-one}

abbrev plain : String → String
plain s = s

abbrev ready : Body
ready = record { complete = true; validated = false; jwtoken = ""; username = some "admin" }

-- A check that succeeds, a call of a page, and its reply.
abbrev session_events : List Event
session_events =
    arrive 0 (answered 200 (inl ready))
    ∷ arrive 0 (answered 200 (inl ready))
    ∷ request
    ∷ arrive 0 (answered 401 (inr ""))
    ∷ request
    ∷ sign_out
    ∷ sign_in
    ∷ []

session_run :
    ((run plain session_events (opened (some "t1") "/login")).stored ≡ none)
    × ((run plain session_events (opened (some "t1") "/login")).path ≡ "/login")
    × ((run plain session_events (opened (some "t1") "/login")).submitting ≡ true)
unfolding run step settle_status settle_verify set_logged_in set_logged_out check_session send
    unauthorize logout handle_login
session_run = (refl, refl, refl)

run-IsConsistent_example :
    (checks (run plain session_events (opened (some "t1") "/login")).calls
      ≡ due (run plain session_events (opened (some "t1") "/login")).state)
    × IsConsistent
        (run plain session_events (opened (some "t1") "/login")).state
        (run plain session_events (opened (some "t1") "/login")).logged_in
        (run plain session_events (opened (some "t1") "/login")).jwt_token
        (run plain session_events (opened (some "t1") "/login")).stored
run-IsConsistent_example = run-IsConsistent plain session_events (some "t1") "/login"

current_route-route_href_example :
    current_route
      (get_base_path (some "/gatesentry"))
      (route_href (get_base_path (some "/gatesentry")) "/logs")
    ≡ "/logs"
current_route-route_href_example = current_route-route_href (some "/gatesentry") "/logs" refl

active_count-le-one_example : active_count menu_items "/excludeurls" ≤ 1
active_count-le-one_example = active_count-le-one "/excludeurls"
