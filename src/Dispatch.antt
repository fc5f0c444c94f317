-- ===== src/Dispatch.antt =====
-- Routing of requests to handlers, and structural validation (src/dispatch.rs).
pub mod Table
pub mod Operations
pub mod Build
pub mod Entries
pub mod Outcomes
pub mod Route
pub mod Unique
pub mod Validate
pub mod Children
