-- ===== src/Wsdl/Parse.antt =====
-- The parser of a WSDL document (src/wsdl/parser.rs).
pub mod Names
pub mod Abstract
pub mod Concrete
pub mod Text
pub mod Document
