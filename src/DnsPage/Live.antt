-- ===== src/DnsPage/Live.antt =====
-- The page asks once at a time and does not stay loading.
use mathlib.Core.Bool.{false≢true}
use gatesentry.Shared.{
  ℕ, ◌+◌, ◌-◌, String, Bool, true, false, List, [], ◌∷◌, ◌≡◌, refl, sym, ◌⊎◌, inl, inr, ◌||◌, not,
  if_cases, ltb, arith,
}
use gatesentry.DnsPage.{
  DnsInfo, Page, load_dns_info, info_loaded, on_update_dns_info, timer_fires, destroy, mounted,
  Event, refresh_pressed, list_changed, timer_fired, left, settled, step, run,
}

abbrev pub call_count : Bool → ℕ
call_count true = 1
call_count false = 0

-- One call waits if the page refreshes, and none else. A page that loads has a call or a timer to wait for,
-- unless it was left.
abbrev pub IsLive : Page → Type 0
IsLive p =
    (p.requests ≡ call_count p.refreshing)
    × ((not p.loading || (p.refreshing || (p.refresh_timer || p.destroyed))) ≡ true)

call_count-pred : (refreshing : Bool) (n : ℕ) → n ≡ call_count refreshing → n - 1 ≡ 0
call_count-pred true n h = omega arith
call_count-pred false n h = omega arith

call_count-suc :
    (refreshing destroyed : Bool) (n : ℕ)
    → (refreshing || destroyed) ≡ false
    → n ≡ call_count refreshing
    → n + 1 ≡ 1
call_count-suc true destroyed n go h = absurd (false≢true (sym go))
call_count-suc false destroyed n go h = omega arith

or-true : (a b : Bool) → b ≡ true → (a || b) ≡ true
or-true true b h = refl
or-true false b h = h

load_dns_info-requests :
    (p : Page)
    → p.requests ≡ call_count p.refreshing
    → (load_dns_info p).requests ≡ call_count (load_dns_info p).refreshing
unfolding load_dns_info
load_dns_info-requests p h =
    if_cases (λ (q : Page). q.requests ≡ call_count q.refreshing) (p.refreshing || p.destroyed)
      (λ stay. h) (λ go. call_count-suc p.refreshing p.destroyed p.requests go h)

load_dns_info-waits :
    (p : Page) → ((load_dns_info p).refreshing || (load_dns_info p).destroyed) ≡ true
unfolding load_dns_info
load_dns_info-waits p =
    if_cases (λ (q : Page). (q.refreshing || q.destroyed) ≡ true) (p.refreshing || p.destroyed)
      (λ stay. stay) (λ go. refl)

load_dns_info-IsLive : (p : Page) → p.requests ≡ call_count p.refreshing → IsLive (load_dns_info p)
load_dns_info-IsLive p h =
    let waits = load_dns_info-waits p in (load_dns_info-requests p h, ground (arith, waits))

info_loaded-IsLive :
    (reply : DnsInfo ⊎ String) (p : Page)
    → p.requests ≡ call_count p.refreshing
    → IsLive (info_loaded reply p)
unfolding info_loaded
info_loaded-IsLive (inl info) p h = (call_count-pred p.refreshing p.requests h, refl)
info_loaded-IsLive (inr message) p h = (call_count-pred p.refreshing p.requests h, refl)

step-IsLive : (e : Event) (p : Page) → IsLive p → IsLive (step e p)
unfolding step on_update_dns_info timer_fires destroy
step-IsLive refresh_pressed p (h, k) = load_dns_info-IsLive p h
step-IsLive list_changed p (h, k) = (h, or-true p.refreshing true refl)
step-IsLive timer_fired p (h, k) =
    if_cases IsLive p.refresh_timer
      (λ set. load_dns_info-IsLive (record p { refresh_timer = false }) h) (λ off. (h, k))
step-IsLive left p (h, k) = (h, or-true (not p.loading) _ (or-true p.refreshing true refl))
step-IsLive (settled reply) p (h, k) =
    if_cases IsLive (ltb 0 p.requests) (λ waits. info_loaded-IsLive reply p h)
      (λ none_waits. (h, k))

run-step-IsLive : (es : List Event) (p : Page) → IsLive p → IsLive (run es p)
unfolding run
run-step-IsLive [] p h = h
run-step-IsLive (e ∷ es) p h = run-step-IsLive es (step e p) (step-IsLive e p h)

-- After any events from the opening of the page on, at most one call waits, and it waits exactly while the page
-- refreshes. A page that shows that it loads has a call or a timer to wait for, unless it was left.
pub run-IsLive : (es : List Event) → IsLive (run es mounted)
unfolding mounted load_dns_info
run-IsLive es = run-step-IsLive es mounted (refl, refl)
