-- ===== src/App.antt =====
-- internal/app: the service.
pub mod Schema
pub mod Service
pub mod Versions
pub mod Details
