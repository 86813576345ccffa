-- ===== src/Managed.antt =====
-- internal/aghmanaged/manager.go: the sources of rules that are imported continuously, the catalog of
-- their entries with the administrators' overrides, and the rewrite feed made of both. A map is an
-- association list, whose order stands for that of one iteration. A time is nanoseconds after Go's
-- zero time, so that 0 is `IsZero`.
pub mod Types
mod Examples
pub mod Rows
pub mod Overrides
pub mod Sources
pub mod Imports
pub mod Sync
pub mod Groups
pub mod Conflicts
pub mod Resolve
pub mod Feed
pub mod Target
pub mod Settings
pub mod Stored
pub mod Items
pub mod Generate
pub mod Paging
pub mod Catalog
pub mod PendingDiff
pub mod Invariant
