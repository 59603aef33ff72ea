-- ===== src/Http.antt =====
-- crates/http: routes, public routes, credentials in headers, and queries to the policy engine.
pub mod Error
pub mod Method
pub mod Matchit
pub mod Route
pub mod Public
pub mod Credential
pub mod Debug
pub mod Query
