-- ===== src/Core/Error.antt =====
-- crates/core/src/error.rs. A text that is built from values is a list of bytes, a fixed one a
-- `String`.
use forgeguard.Base.{ℕ, String, Str, codes, ◌++◌}
use forgeguard.Base.Text.{utf8, decimal}
use forgeguard.Base.Result.{Result}

pub data Error : Type 0 where
  parse : (field : String) (value : Str) (reason : String) → Error
  config : Str → Error
  invalid_flag_type : Str → Error
  invalid_percentage : ℕ → Error
  invalid_config_version : Str → Error
  spine : (fgrn : Str) (reason : String) → Error
  grant : (fgrn : Str) (reason : String) → Error

abbrev pub CoreResult {ℓ} : Type ℓ → Type ℓ
CoreResult A = Result Error A

-- Its `Display`.
unfoldable pub error_text : Error → Str
error_text (parse field value reason) =
    codes "invalid " ++ (utf8 field ++ (codes ": '" ++ (value ++ (utf8 "' — " ++ utf8 reason))))
error_text (config s) = codes "configuration error: " ++ s
error_text (invalid_flag_type s) = codes "unknown feature flag type: " ++ s
error_text (invalid_percentage value) =
    codes "invalid percentage: " ++ (decimal value ++ codes " (expected 0..=100)")
error_text (invalid_config_version raw) =
    codes "invalid config version: " ++ (raw ++ codes " (expected YYYY-MM-DD)")
error_text (spine fgrn reason) = codes "spine violation: " ++ (utf8 reason ++ (codes ": " ++ fgrn))
error_text (grant fgrn reason) = codes "grant violation: " ++ (utf8 reason ++ (codes ": " ++ fgrn))
