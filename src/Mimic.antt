-- ===== src/Mimic.antt =====
-- internal/mimic: decoys that keep the shape of what they stand for.
pub mod Range
pub mod Generator
pub mod Cache
pub mod Classify
