-- ===== src/Http/Error.antt =====
-- crates/http/src/error.rs.
use forgeguard.Base.{Str, List, codes, ◌++◌, length}
use forgeguard.Base.Result.{Result}
use forgeguard.Base.Text.{decimal}
use forgeguard.Core.Error.{Error as CoreError, error_text as core_error_text}

pub data ValidationErrorKind : Type 0 where
  duplicate_route undefined_feature_gate invalid_policy_reference : ValidationErrorKind
  invalid_group_reference circular_group_nesting invalid_cors_config : ValidationErrorKind

pub record ValidationError : Type 0 where
  pub kind : ValidationErrorKind
  pub message : Str
  pub path : Str

pub data Error : Type 0 where
  config : Str → Error
  validation : List ValidationError → Error
  route_not_found : Error
  invalid_query : Str → Error
  core : CoreError → Error

abbrev pub HttpResult {ℓ} : Type ℓ → Type ℓ
HttpResult A = Result Error A

-- Its `Display`.
unfoldable pub error_text : Error → Str
error_text (config s) = codes "config error: " ++ s
error_text (validation errors) =
    codes "validation failed: " ++ (decimal (length errors) ++ codes " error(s)")
error_text route_not_found = codes "no route matched the request"
error_text (invalid_query s) = codes "invalid query: " ++ s
error_text (core e) = core_error_text e
