-- ===== src/Quic.antt =====
-- internal/quic: the SNI of a QUIC v1 Initial, and the relay of QUIC flows that are not terminated.
pub mod Varint
pub mod Frames
pub mod Join
pub mod Initial
pub mod Extractor
mod Examples
