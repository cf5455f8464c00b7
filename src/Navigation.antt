-- ===== src/Navigation.antt =====
-- The routes of the interface: ui/src/menu.ts, ui/src/lib/navigate.ts and the route of
-- ui/src/App.svelte. What the server writes into `__GS_BASE_PATH__` is a parameter. Icons are left
-- out.
pub mod Routes
pub mod Active
use gatesentry.Shared.{
  String, Bool, true, false, Option, none, some, List, [], ◌∷◌, ◌&&◌, ◌||◌, ◌==◌, if◌then◌else◌,
  or_else, ◌<>◌, truthy, starts_with, slice_after, String_eq,
}

pub record MenuLink : Type 0 where
  pub text : String
  pub href : String

pub data MenuItem : Type 0 where
  link : MenuLink → MenuItem
  menu : (text : String) (children : List MenuLink) → MenuItem

abbrev pub menu_items : List MenuItem
menu_items =
    link (record { text = "Home"; href = "/" })
    ∷ link (record { text = "Logs"; href = "/logs" })
    ∷ link (record { text = "Settings"; href = "/settings" })
    ∷ link (record { text = "DNS"; href = "/dns" })
    ∷ link (record { text = "Devices"; href = "/devices" })
    ∷ link (record { text = "Policies"; href = "/rules" })
    ∷ link (record { text = "Services"; href = "/services" })
    ∷ menu "HTTPS inspection" (
        record { text = "Blocked keywords"; href = "/blockedkeywords" }
        ∷ record { text = "Blocked content types"; href = "/blockedfiletypes" }
        ∷ record { text = "Sites not inspected"; href = "/excludehosts" }
        ∷ record { text = "URLs not inspected"; href = "/excludeurls" }
        ∷ [])
    ∷ link (record { text = "Stats"; href = "/stats" })
    ∷ link (record { text = "AI"; href = "/ai" })
    ∷ link (record { text = "Users"; href = "/users" })
    ∷ []

-- `getBasePath`, from the value of the window
unfoldable pub get_base_path : Option String → String
get_base_path value = let bp = or_else value "" in if bp == "/" then "" else bp

unfoldable pub route_href : String → String → String
route_href base href = base <> href

-- `currentRoute`, and `routePath` of the application.
unfoldable pub current_route : String → String → String
current_route base pathname =
    or_else
      (some (
        if truthy base && (pathname == base || starts_with (base <> "/") pathname)
        then or_else (some (slice_after base pathname)) "/"
        else pathname))
      "/"

unfoldable pub is_route_active : String → String → Bool
is_route_active href pathname =
    if href == "/" then pathname == "/" else pathname == href || starts_with (href <> "/") pathname

abbrev pub any_active : List MenuLink → String → Bool
any_active [] pathname = false
any_active (child ∷ rest) pathname = is_route_active child.href pathname || any_active rest pathname

unfoldable pub is_menu_active : MenuItem → String → Bool
is_menu_active (link item) pathname = is_route_active item.href pathname
is_menu_active (menu text children) pathname = any_active children pathname
