-- ===== src/Domain.antt =====
-- internal/domain: versions, how they are parsed and how they are compared.
pub mod Version
pub mod Commit
pub mod Json
