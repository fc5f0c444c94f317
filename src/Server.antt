-- ===== src/Server.antt =====
-- The HTTP server (src/server.rs, src/handler.rs).
pub mod Handler
pub mod Paths
pub mod Request
pub mod Service
pub mod Post
pub mod Served
pub mod Auth
pub mod Replay
pub mod Total
pub mod Wsdl
pub mod Builder
pub mod Loaders
pub mod Embedded
pub mod Services
