-- ===== src/ControlPlane.antt =====
-- crates/control-plane/src: the request-signing keys of an organization, and the store of its model.
pub mod Error
pub mod SigningKey
pub mod EventStore
