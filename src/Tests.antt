-- ===== src/Tests.antt =====
-- Runs of the theorems on concrete inputs.
mod Fixture
mod Wsdl
mod Nonces
mod Tokens
mod Dispatch
mod Envelope
mod Server
mod Routes
mod Schemas
mod Documents
mod Resolution
mod Harness
