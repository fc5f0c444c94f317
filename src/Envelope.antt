-- ===== src/Envelope.antt =====
-- SOAP envelopes: parsing and serialisation (src/envelope.rs).
pub mod Emit
pub mod Header
pub mod Body
pub mod Parse
pub mod Serialize
pub mod Tree
mod Copy
pub mod Document
pub mod RoundTrip
pub mod Total
pub mod Losses
