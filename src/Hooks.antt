-- ===== src/Hooks.antt =====
-- The hooks of the dashboard: web/src/features/dashboard/hooks. A hook's state is a record, a setter
-- writes its field, and an asynchronous function is cut at its `await`: a part that runs at once and
-- a part that runs when the promise has settled.
pub mod Message
pub mod NoOrg
pub mod ApiKeys
pub mod DashboardStats
pub mod Invitations
pub mod SigningSecret
pub mod LogDetail
pub mod WebhookLogs
