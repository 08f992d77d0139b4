-- ===== src/Api.antt =====
-- The typed calls of the server's API: web/src/features/*/types and web/src/features/*/api. Each call
-- is the argument that it passes to `apiRequest`.
pub mod Types
pub mod Auth
pub mod Dashboard
pub mod Invitations
pub mod Organizations
pub mod Paths
