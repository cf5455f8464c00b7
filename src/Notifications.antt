-- ===== src/Notifications.antt =====
-- The store of toast notifications: ui/src/store/notifications.ts. The store's value is a list.
pub mod Ids
pub mod Build
use gatesentry.Shared.{
  ℕ, ◌+◌, String, Bool, Option, none, some, List, [], ◌∷◌, ◌++◌, map, ◌==◌, not, filter, length,
  ℕ_eq,
}

pub record Notification : Type 0 where
  pub id : ℕ
  pub title : String
  pub subtitle : String
  pub kind : String
  pub timeout : ℕ

-- What a caller of `add` passes.
pub record Message : Type 0 where
  pub title : String
  pub subtitle : String
  pub kind : String
  pub timeout : Option ℕ

abbrev pub timeout_or : Option ℕ → ℕ
timeout_or none = 1000
timeout_or (some t) = t

unfoldable pub add : Message → List Notification → List Notification
add m current =
    current
    ++ record {
      id = length current + 1;
      title = m.title;
      subtitle = m.subtitle;
      kind = m.kind;
      timeout = timeout_or m.timeout;
    }
      ∷ []

unfoldable pub remove : Notification → List Notification → List Notification
remove notification current = filter (λ n. not (n.id == notification.id)) current
