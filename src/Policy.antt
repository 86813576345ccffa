-- ===== src/Policy.antt =====
-- internal/policy: the curated rules and the engine that applies them.
pub mod Glob
pub mod Rules
pub mod Load
pub mod Engine
pub mod Aggregator
mod Examples
