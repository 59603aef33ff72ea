-- ===== src/Core.antt =====
-- crates/core: the shared primitives.
pub mod Error
pub mod Forest
pub mod Segment
pub mod NativeId
pub mod Fgrn
pub mod Spine
pub mod Verb
pub mod Grant
pub mod Visibility
pub mod PrincipalSet
pub mod Delegation
mod Tests
pub mod CedarIdent
pub mod Selector
pub mod Org
pub mod Action
pub mod Flag
pub mod Features
