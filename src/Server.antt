-- ===== src/Server.antt =====
-- internal/server: the guards in front of the origin servers.
pub mod Breaker
pub mod Limits
pub mod Fallback
pub mod Intercept
pub mod Routing
pub mod Process
pub mod Reload
mod Examples
