-- ===== src/Wssec.antt =====
-- WS-Security (src/wssec/).
pub mod NonceCache
pub mod Timestamp
pub mod UsernameToken
