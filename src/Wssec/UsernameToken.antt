-- ===== src/Wssec/UsernameToken.antt =====
-- The UsernameToken of a `Security` header: its parser and its validation
-- (src/wssec/username_token.rs).
pub mod Names
pub mod Parse
pub mod Validate
pub mod Rules
pub mod Disclosure
pub mod Reading
