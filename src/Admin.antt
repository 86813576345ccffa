-- ===== src/Admin.antt =====
-- internal/admin: who may use the admin server, and for how long.
pub mod Sessions
pub mod Users
pub mod Access
pub mod Accounts
mod Examples
