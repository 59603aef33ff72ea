-- ===== src/Http/Debug.antt =====
-- crates/http/src/debug.rs: the query of the debug endpoint. The pairs of a query string are a
-- parameter, `url::form_urlencoded::parse`.
use forgeguard.Base.{
  ℕ, Str, true, false, List, [], ◌∷◌, ◌++◌, Option, none, some, codes, ◌==◌, nat_eq, list_eq,
}
use forgeguard.Base.Trim.{trim}
use forgeguard.Base.Result.{ok, ◌>>=◌, map_err, ok_or}
use forgeguard.Core.Error.{Error as CoreError, error_text}
use forgeguard.Core.Segment
use forgeguard.Core.Segment.{Segment}
use forgeguard.Core.Action.{UserId, TenantId, GroupName}
use forgeguard.Core.Flag.{FlagName, FlagDefinition, ResolvedFlag}
use forgeguard.Core.Features.{evaluate_flags_detailed}
use forgeguard.Http.Error.{Error, HttpResult}

pub record FlagDebugQuery : Type 0 where
  pub user_id : UserId
  pub tenant_id : Option TenantId
  pub groups : List GroupName

-- The last value of a parameter.
abbrev last_value : Str → List (Str × Str) → Option Str → Option Str
last_value name [] found = found
last_value name ((key, value) ∷ pairs) found =
    last_value name pairs (elim (key == name) [ true ↦ some value | false ↦ found ])

abbrev query_error : Str → CoreError → Error
query_error what e = Error.invalid_query (what ++ error_text e)

-- `split(',')`, from the bytes of the part so far.
abbrev split_commas : Str → Str → List Str
split_commas part [] = part ∷ []
split_commas part (b ∷ s) = elim (b == b',') [
  | true ↦ part ∷ split_commas [] s
  | false ↦ split_commas (part ++ b ∷ []) s
]

parse_groups : List Str → HttpResult (List GroupName)
parse_groups [] = ok []
parse_groups (g ∷ parts) = do
  group ←
      map_err (query_error (codes "invalid group name '" ++ (g ++ codes "': ")))
        (Segment.try_new (trim g))
  groups ← parse_groups parts
  ok (group ∷ groups)

optional_tenant : Option Str → HttpResult (Option TenantId)
optional_tenant none = ok none
optional_tenant (some t) = do
  tenant ← map_err (query_error (codes "invalid tenant_id: ")) (Segment.try_new t)
  ok (some tenant)

optional_groups : Option Str → HttpResult (List GroupName)
unfolding parse_groups
optional_groups none = ok []
optional_groups (some []) = ok []
optional_groups (some (b ∷ s)) = parse_groups (split_commas [] (b ∷ s))

-- `FlagDebugQuery::parse`, of the pairs of the query string.
unfoldable pub parse_debug_query : List (Str × Str) → HttpResult FlagDebugQuery
unfolding optional_tenant optional_groups
parse_debug_query pairs = do
  user_id_str ←
      ok_or (last_value (codes "user_id") pairs none)
        (Error.invalid_query (codes "missing required parameter: user_id"))
  user_id ← map_err (query_error (codes "invalid user_id: ")) (Segment.try_new user_id_str)
  tenant_id ← optional_tenant (last_value (codes "tenant_id") pairs none)
  groups ← optional_groups (last_value (codes "groups") pairs none)
  ok (record { user_id = user_id; tenant_id = tenant_id; groups = groups })

unfoldable pub evaluate_debug :
    (Str → ℕ)
    → {Float : Type 0} → List (FlagName × FlagDefinition Float)
    → FlagDebugQuery
    → List (Str × ResolvedFlag Float)
evaluate_debug xxh64 config query =
    evaluate_flags_detailed xxh64 config query.tenant_id query.user_id query.groups
