-- ===== src/Db.antt =====
-- internal/db and internal/repository: the tables, the queries, transactions.
pub mod Models
pub mod Tx
pub mod Registry
pub mod Versions
pub mod Filter
pub mod Commits
pub mod Newest
pub mod Previous
pub mod Details
