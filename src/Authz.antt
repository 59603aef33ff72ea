-- ===== src/Authz.antt =====
-- crates/authz-core: events, the model store, slices and roles.
pub mod Error
pub mod Json
pub mod Kind
pub mod Event
pub mod Store
pub mod Rbac
pub mod Query
mod Tests
