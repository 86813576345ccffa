-- ===== src/Passthrough.antt =====
-- internal/passthrough: the peek at a TLS ClientHello before any TLS is terminated.
pub mod Sni
pub mod Peek
pub mod Prefix
mod Examples
