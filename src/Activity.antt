-- ===== src/Activity.antt =====
-- internal/activity: what the workflows' activities do.
pub mod Sort
pub mod Ordering
pub mod Sync
pub mod Apply
pub mod Fetch
pub mod Tags
pub mod Index
pub mod Enrichment
pub mod Git
