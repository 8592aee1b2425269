-- ===== src/Tests.antt =====
-- Runs of the code on concrete inputs, and each theorem at an input that meets its hypotheses.
mod Versions
mod Ordering
mod Auth
mod Selector
mod Service
mod Sync
mod Batches
mod Index
mod Handlers
mod Downloads
mod SyncRun
mod Repository
mod Git
