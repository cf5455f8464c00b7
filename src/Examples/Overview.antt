-- ===== src/Examples/Overview.antt =====
-- The overview and the byte counts on concrete inputs.
use Prim.Native.Nat.{◌/◌}
use gatesentry.Shared.{
  ℕ, ◌<◌, String, true, false, none, some, [], ◌∷◌, ◌≡◌, ◌↔◌, refl, All, ◌⊎◌, leb, decimal,
  String_eq,
}
use gatesentry.Home.{CheckStep, OnboardingStep, OnboardingStatus, Page, setup_done, steps_of}
use gatesentry.Home.Readiness.{is_measured, Exists, setup_done_iff}
use gatesentry.StatsPage.Bytes.{Numbers, scale, goes_on, format_bytes, scale-terminates}

abbrev words : String → String
words s = s

abbrev fine : CheckStep
fine = record { state = "ok"; action = none; detail = none }

abbrev broken_resolver : CheckStep
broken_resolver = record { state = "failed"; action = some "Check the resolver."; detail = none }

abbrev gateway : OnboardingStatus
gateway = record {
  listen_addr = "0.0.0.0";
  device_count = 3;
  bind = fine;
  resolver = broken_resolver;
  blocklist = fine;
  steps =
      record { name = "clients"; state = "todo" } ∷ record { name = "resolver"; state = "ok" } ∷ [];
  first_explained_protection_at = none;
}

abbrev overview : Page
overview = record {
  status = some gateway;
  summary = none;
  https_on = none;
  status_error = "";
  check_state = "";
  check_detail = "";
  check_action = "";
  checking = false;
}

setup_done_iff_example : (setup_done overview ≡ true) ↔ (
    Exists is_measured (steps_of overview.status)
    × All
        (λ (s : OnboardingStep). (is_measured s ≡ false) ⊎ (s.state ≡ "ok"))
        (steps_of overview.status))
setup_done_iff_example = setup_done_iff overview

-- Whole numbers, rounded down.
abbrev whole : Numbers ℕ
whole = record { at_least = leb; kibi = λ n. n / 1024; to_fixed = λ n digits. decimal n }

bytes_run : format_bytes whole (some 3145728) ≡ "3 MiB"
unfolding format_bytes scale decimal
bytes_run = refl

scale-terminates_example :
    (goes_on whole (scale whole 4 3145728 0).0 (scale whole 4 3145728 0).1 ≡ false)
    × ((scale whole 4 3145728 0).1 < 5)
scale-terminates_example = scale-terminates whole 3145728
