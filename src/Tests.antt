-- ===== src/Tests.antt =====
-- The theorems at concrete inputs, with the data that they need.
pub mod Data
pub mod PathData
pub mod Contexts
pub mod Routing
pub mod Loading
pub mod Lists
pub mod Views
pub mod Deliveries
pub mod Requests
pub mod Guards
pub mod Accounts
pub mod Invited
pub mod Organizations
