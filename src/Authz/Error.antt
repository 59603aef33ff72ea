-- ===== src/Authz/Error.antt =====
-- crates/authz-core/src/error.rs.
use forgeguard.Base.{ℕ, Str}
use forgeguard.Base.Result.{Result}
use forgeguard.Core.Error.{Error as CoreError}

pub data Error : Type 0 where
  evaluation_failed : Str → Error
  unknown_revision : (requested latest : ℕ) → Error
  unknown_entity : Str → Error
  core : CoreError → Error
  invalid_policy : Str → Error
  chain_actor_mismatch : (principal actor : Str) → Error
  unknown_event_kind : Str → Error
  invalid_event_id : Str → Error
  unfoldable_event : (seq : ℕ) (reason : Str) → Error
  invalid_scope_path : Str → Error

abbrev pub AuthzResult {ℓ} : Type ℓ → Type ℓ
AuthzResult A = Result Error A
