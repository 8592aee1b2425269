-- ===== src/Workflow.antt =====
-- internal/workflow: the workflows that run the activities.
pub mod Batch
pub mod Index
pub mod Enrich
pub mod Submodules
pub mod Changelog
pub mod Ordering
pub mod CommitEnrichment
pub mod Sync
