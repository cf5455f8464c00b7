-- ===== src/Lib.antt =====
-- The administration interface of GateSentry, the Svelte and TypeScript code under ui/src.
--
-- The application shell decides between the sign-in page, the setup page and the pages behind a
-- session, which one client of the server's API keeps; a reply 401 ends it. The menu and the router
-- lead to the pages. A page loads its data when it is opened, some load it again on a timer, its
-- handlers send changes and then take over the answer or load again, and what fails is shown as a
-- notification. The policies page turns each policy of the server into a draft, lets the policy editor
-- change the draft and sends it back. The device dialog, opened from the device list, polls the server
-- for the activity of one device while it is open.
--
-- PolicyModel: ui/src/routes/rules/policymodel.ts. PolicyModel/Types has its shapes and empty
--   drafts, PolicyModel/Copy has copyGroup, copyRule, copySchedule and persistableGroup,
--   PolicyModel/Labels the labels and PolicyModel/Summary the bedtime rule, hasAdvancedSettings and
--   policySummary. A missing or null field of a response is `none`.
-- GroupForm: ui/src/routes/rules/groupform.svelte. GroupForm/Rule has the handlers of one rule,
--   GroupForm/Draft those of the whole draft; its type `Event` is what an administrator can do, and
--   `handle` is one event. A handler that throws a TypeError gives `none`, and `edit` goes on with
--   the draft as it was. The bedtime row reads the first bedtime rule, as `$: bedtimeIndex` does.
-- ActivityPoll: the polling of ui/src/routes/devices/devicedetail.svelte. `Poller` has the
--   component's variables, the timers that are set and the calls that wait. The browser's event
--   loop is a list of events: the parent sets props, the dialog closes or is destroyed, a waiting
--   call settles, a timer fires. Any call may settle in any way, in any order, or never, and an
--   aborted call may still deliver.
-- DeviceNames: ui/src/lib/devicenames.ts. DeviceNames/Lookup states which name an address has.
-- Notifications: ui/src/store/notifications.ts, the list of toasts that the store holds.
-- ListInputs: ui/src/routes/rules/domainlist.svelte and ui/src/routes/rules/categoryselect.svelte,
--   the controls whose change events the policy editor stores.
-- PolicyPage: ui/src/routes/rules/policygroups.svelte. PolicyPage itself has the lists of devices of
--   each policy, PolicyPage/Assign the handlers that assign devices, over a server that is the record
--   `AssignmentApi` with the laws `IsSound`; Examples/Assignments gives a server that has them.
--   PolicyPage/Drafts has the handlers that open, save and delete a policy or apply a template.
-- ListEditors: the editors that load a whole list and send it back. ListEditors/BlockLists is
--   ui/src/components/dnslists.svelte, ListEditors/Records ui/src/components/dnsArecords.svelte and
--   ListEditors/Filter ui/src/components/filtereditor.svelte, over a server that is the record
--   `ListApi`. Notifications/Build has the notifications of ui/src/lib/utils.ts that they show.
-- Session: the client and its store (ui/src/lib/api.ts, ui/src/store/apistore.ts), checkSession of
--   ui/src/App.svelte, ui/src/routes/login/login.svelte and the logout of
--   ui/src/components/headerrightnav.svelte, as one machine: a call is sent at once, its reply
--   arrives later, in any order. `run` is a list of events.
-- Navigation: ui/src/menu.ts and ui/src/lib/navigate.ts.
-- Credentials: ui/src/lib/credentials.ts and ui/src/routes/setup/setup.svelte.
-- Refresh: the reload loop that two pages share. StatsPage: ui/src/routes/stats/stats.svelte.
--   LogsPage: ui/src/routes/logs/logs.svelte, with the names of DeviceNames.
-- DeviceList: ui/src/routes/devices/devicelist.svelte.
-- Users: ui/src/routes/users/users.svelte and ui/src/routes/users/usermodal.svelte.
-- DeviceDialog: the labels, the policy and the Tailscale links of
--   ui/src/routes/devices/devicedetail.svelte.
-- PolicyPage/Tools: what loads ui/src/routes/rules/policygroups.svelte, the categories of the gateway
--   and the tester of a site.
-- Home: ui/src/routes/home/home.svelte.
-- SettingInputs: ui/src/components/connectedSettingInput.svelte and
--   ui/src/components/connectedGeneralSettingInputs.svelte.
-- AiPage: ui/src/routes/ai/ai.svelte.
-- DnsPage: ui/src/routes/dns/dns.svelte, with the waiting calls and the timer of its status.
-- Shared: tests, lists and texts of JavaScript as the code uses them, over the native numbers.
-- Examples: concrete inputs of the theorems, and runs.
--
-- Every function recurses on a list or a text, except two on fuel: the decimal numerals, with one more
-- than the number, where more gives the same numeral, and the loop of formatBytes, with four rounds,
-- after which it has ended. Numbers are ids, generations and counts
-- that start at 0 or 1 and grow by one; a browser represents them exactly below 2 ^ 53, and the
-- model does not wrap. A text is a list of Unicode scalars: `trim` strips the white space of
-- ECMAScript, and `to_lower` is read from the source's use for response types, over ASCII letters.
--
-- Not modelled: the diagnostics and the status of Tailscale on the page
-- ui/src/routes/settings/settings.svelte, whose fields are a component of their own; the forms of
-- the certificate and the toggle of HTTPS inspection under ui/src/components; the dates and the
-- numbers that a locale formats or that take floating-point arithmetic, other than as parameters; the
-- server and the proxy, which are written in Go and whose responses are parameters here; the bundle
-- that the build generates; the markup and styles of components.
pub mod Shared
pub mod PolicyModel
pub mod GroupForm
pub mod ActivityPoll
pub mod DeviceNames
pub mod Notifications
pub mod ListInputs
pub mod PolicyPage
pub mod ListEditors
pub mod Session
pub mod Refresh
pub mod Home
pub mod AiPage
pub mod DnsPage
pub mod SettingInputs
pub mod DeviceDialog
pub mod DeviceList
pub mod Users
pub mod StatsPage
pub mod LogsPage
pub mod Credentials
pub mod Navigation
pub mod Examples
