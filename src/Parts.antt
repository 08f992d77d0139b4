-- ===== src/Parts.antt =====
-- The components of web/src/features/dashboard/components that keep a state or decide what to show.
pub mod OrgSwitcher
pub mod PendingInvitations
pub mod LogDetailView
pub mod Nav
