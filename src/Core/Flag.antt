-- ===== src/Core/Flag.antt =====
-- crates/core/src/features/mod.rs and percentage.rs: the names, values and definitions of feature flags.
-- The numbers of `f64` are a type that is a parameter.
use forgeguard.Base.{
  ℕ, Str, Bool, false, not, List, [], ◌∷◌, ◌++◌, Option, none, some, ltb, list_eq, nat_eq,
}
use forgeguard.Base.Text.{split_once}
use forgeguard.Base.Result.{ok, err, ◌>>=◌, ◌>>◌, ensure}
use forgeguard.Core.Error.{Error, CoreResult}
use forgeguard.Core.Segment
use forgeguard.Core.Segment.{Segment, segment_eq}
use forgeguard.Core.Action.{
  Namespace, as_segment, same_namespace, parse_namespace, UserId, TenantId, GroupName,
}

pub record Percentage : Type 0 where
  pub value : ℕ

-- `Percentage::try_new`
unfoldable pub percentage_new : ℕ → CoreResult Percentage
percentage_new value = do
  ensure (not (ltb 100 value)) (Error.invalid_percentage value)
  ok (record { value = value })

pub data FlagName : Type 0 where
  global : Segment → FlagName
  scoped : Namespace → Segment → FlagName

-- `FlagName::parse`
unfoldable pub parse_flag_name : Str → CoreResult FlagName
parse_flag_name [] = err (Error.parse "flag_name" [] "cannot be empty")
parse_flag_name (b ∷ s) = elim (split_once b':' (b ∷ s)) [
  | none ↦ (do seg ← Segment.try_new (b ∷ s); ok (global seg))
  | some (ns, name) ↦ (do
    namespace ← parse_namespace ns
    name' ← Segment.try_new name
    ok (scoped namespace name'))
]

-- Its `Display`.
unfoldable pub flag_text : FlagName → Str
flag_text (global seg) = seg.raw
flag_text (scoped namespace name) = (as_segment namespace).raw ++ b':' ∷ name.raw

unfoldable pub is_in_namespace : FlagName → Namespace → Bool
is_in_namespace (global seg) ns = false
is_in_namespace (scoped namespace name) ns = same_namespace namespace ns

pub data FlagValue (Float : Type 0) : Type 0 where
  bool : Bool → FlagValue Float
  string : Str → FlagValue Float
  number : Float → FlagValue Float

pub data FlagType : Type 0 where
  boolean string number : FlagType

pub record FlagOverride (Float : Type 0) : Type 0 where
  pub tenant : Option TenantId
  pub user : Option UserId
  pub group : Option GroupName
  pub value : FlagValue Float

pub record FlagDefinition (Float : Type 0) : Type 0 where
  pub flag_type : FlagType
  pub default : FlagValue Float
  pub enabled : Bool
  pub overrides : List (FlagOverride Float)
  pub rollout_percentage : Option Percentage
  pub rollout_variant : Option (FlagValue Float)

pub data ResolutionReason : Type 0 where
  kill_switch : ResolutionReason
  override : Option Str → Option Str → Option Str → ResolutionReason
  rollout rollout_excluded : (bucket threshold : ℕ) → ResolutionReason
  default : ResolutionReason

pub record ResolvedFlag (Float : Type 0) : Type 0 where
  pub value : FlagValue Float
  pub reason : ResolutionReason
