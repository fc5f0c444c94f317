-- ===== src/Xsd.antt =====
-- The XSD layer (src/xsd/).
pub mod Elements
pub mod Types
pub mod Groups
pub mod Resolve
pub mod Parse
pub mod Collect
pub mod Registry
pub mod Ends
pub mod Layers
pub mod Restores
pub mod Cycles
pub mod Extension
pub mod Models
