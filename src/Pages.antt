-- ===== src/Pages.antt =====
-- The pages of the dashboard: web/src/features/dashboard/pages. A page has its state, the handlers of
-- its widgets, and its view; a handler that calls the server is cut at its `await`.
pub mod ApiKeysPage
pub mod MembersPage
pub mod SettingsPage
pub mod LogsPage
pub mod OverviewPage
pub mod PageHeader
pub mod DashboardPage
pub mod PlaygroundPage
pub mod AcceptInvitePage
