-- ===== src/Httpapi.antt =====
-- internal/httpapi: the HTTP interface.
pub mod Auth
pub mod Schema
pub mod Versions
pub mod Schedules
pub mod Handler
pub mod Orderings
pub mod Details
