-- ===== src/Proxy.antt =====
-- crates/proxy-core: what the proxy decides about a request.
pub mod Input
pub mod Tenant
pub mod Outside
pub mod Outcome
pub mod WellKnown
pub mod Pipeline
