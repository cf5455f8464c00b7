-- ===== src/Notifications/Build.antt =====
-- The notifications that pages build: `buildNotification`, `createNotificationSuccess` and
-- `createNotificationError` of ui/src/lib/utils.ts. The translator of the page is a parameter.
use gatesentry.Shared.{ℕ, String, Option, none, some}
use gatesentry.Notifications.{Message}

-- `NotificationMessage`: every field may be missing.
pub record Draft : Type 0 where
  pub kind : Option String
  pub title : Option String
  pub subtitle : Option String
  pub timeout : Option ℕ

-- `value ?? fallback`
abbrev pub or_default {ℓ} : {A : Type ℓ} → Option A → A → A
or_default none d = d
or_default (some a) d = a

module _ (translator : String → String) where
  abbrev pub build_notification : Draft → Message
  build_notification n = record {
    kind = or_default n.kind "error";
    title = or_default n.title (translator "Error");
    subtitle = or_default n.subtitle (translator "Unable to perform action");
    timeout = some (or_default n.timeout 30000);
  }

  abbrev pub create_notification_success : Draft → Message
  create_notification_success n =
      build_notification (record n {
        kind = some "success";
        timeout = some 2000;
        title = some (translator "Success");
      })

  abbrev pub create_notification_error : Draft → Message
  create_notification_error n =
      build_notification (record n { kind = some "error"; timeout = some 30000 })

-- `{ title, subtitle }`
abbrev pub titled : String → String → Draft
titled title subtitle = record {
  kind = none;
  title = some title;
  subtitle = some subtitle;
  timeout = none;
}
