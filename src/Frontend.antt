-- ===== src/Frontend.antt =====
-- internal/frontend: the downloads page.
pub mod Config
pub mod Classifiers
pub mod Commits
pub mod Downloads
pub mod Pagination
pub mod Preferences
pub mod VersionSort
