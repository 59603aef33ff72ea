-- ===== src/Authn.antt =====
-- crates/authn-core: credentials, identities and how the one becomes the other.
pub mod Error
pub mod Identity
pub mod Signing
mod Tests
