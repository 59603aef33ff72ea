-- ===== src/ControlPlane/Error.antt =====
-- crates/control-plane/src/error.rs, without the two errors of the group endpoints, which no modelled
-- code returns.
use forgeguard.Base.{ℕ, Str}

pub data Error : Type 0 where
  config conflict not_found : Str → Error
  revision_mismatch : (current : ℕ) → Error
  invalid_etag : Str → Error
  store : Str → Error
