-- ===== src/Authn/Error.antt =====
-- crates/authn-core/src/error.rs.
use forgeguard.Base.{ℕ, Str, String}
use forgeguard.Base.Result.{Result}

pub data Error : Type 0 where
  no_resolver : (credential_type : Str) → Error
  token_expired : Error
  invalid_issuer : (expected actual : Str) → Error
  invalid_audience : Error
  missing_claim malformed_token invalid_credential : Str → Error
  signature_invalid : Error
  timestamp_drift : ℕ → Error
  invalid_signing_key invalid_verifying_key : Str → Error
  invalid_key_id : Error
  missing_org_id : Error
  invalid_custom_attr_name : (raw : Str) (reason : String) → Error
  invalid_standard_attr_name : Str → Error
  invalid_pool_id : (raw : Str) → Error

abbrev pub AuthnResult {ℓ} : Type ℓ → Type ℓ
AuthnResult A = Result Error A
