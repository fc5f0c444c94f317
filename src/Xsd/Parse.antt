-- ===== src/Xsd/Parse.antt =====
-- The parser of one schema document (src/xsd/parser.rs).
pub mod Names
pub mod Facets
pub mod Particles
pub mod Schema
