-- ===== src/Observability.antt =====
-- internal/observability/record.go: what is kept and shown of the requests.
pub mod Records
pub mod Redact
pub mod Modes
pub mod Recorder
pub mod Analytics
mod Examples
