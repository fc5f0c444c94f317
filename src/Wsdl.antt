-- ===== src/Wsdl.antt =====
-- The WSDL layer (src/wsdl/).
pub mod Definitions
pub mod Resolved
pub mod Parse
pub mod Resolve
pub mod Written
pub mod Injection
pub mod Merge
pub mod Imports
pub mod Total
pub mod Address
pub mod Rewriting
pub mod Ports
pub mod Locations
