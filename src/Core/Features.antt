-- ===== src/Core/Features.antt =====
-- crates/core/src/features/mod.rs: the evaluation of feature flags. `Xxh64` is a function of the bytes
-- that are written to it, with the result of `finish`.
pub mod Laws
pub mod Reasons
mod Tests
use forgeguard.Base.{
  ℕ, ◌%◌, Str, Bool, true, false, not, ◌&&◌, List, [], ◌∷◌, ◌++◌, Option, none, some, codes, ltb,
  ◌==◌, any, if◌then◌else◌, list_eq, nat_eq,
}
use forgeguard.Base.Text.{split_once}
use forgeguard.Base.Assoc.{lookup, insert}
use forgeguard.Base.Result.{ok, err, ◌>>=◌, ◌>>◌, ensure}
use forgeguard.Core.Error.{Error, CoreResult}
use forgeguard.Core.Segment
use forgeguard.Core.Segment.{Segment, segment_eq}
use forgeguard.Core.Action.{
  Namespace, as_segment, same_namespace, parse_namespace, UserId, TenantId, GroupName,
}
use forgeguard.Core.Flag.{
  Percentage, percentage_new, FlagName, global, scoped, parse_flag_name, flag_text, is_in_namespace,
  FlagValue, bool, string, number, FlagType, boolean, FlagOverride, FlagDefinition,
  ResolutionReason, kill_switch, override, rollout, rollout_excluded, default, ResolvedFlag,
}

-- `is_none_or`
abbrev pub is_none_or : Option Segment → (Segment → Bool) → Bool
is_none_or none p = true
is_none_or (some a) p = p a

abbrev pub tenant_matches : Option TenantId → Option TenantId → Bool
tenant_matches (some t) (some tid) = t == tid
tenant_matches (some t) none = false
tenant_matches none tid = true

abbrev pub raw_of : Option Segment → Option Str
raw_of none = none
raw_of (some s) = some s.raw

-- The bytes that are hashed, with a separator between the parts.
abbrev pub bucket_bytes : Str → Option TenantId → UserId → Str
bucket_bytes flag none user = flag ++ 0xff ∷ 0xff ∷ user.raw
bucket_bytes flag (some t) user = flag ++ 0xff ∷ (t.raw ++ 0xff ∷ user.raw)

module _ {Float : Type 0} where
  abbrev pub override_matches :
      FlagOverride Float → Option TenantId → UserId → List GroupName → Bool
  override_matches ov tenant_id user_id groups =
      is_none_or ov.user (λ u. u == user_id)
      && (tenant_matches ov.tenant tenant_id
          && is_none_or ov.group (λ g. any (λ ug. ug == g) groups))

  -- The loop over the overrides, to the first that matches.
  unfoldable pub first_override :
      List (FlagOverride Float)
      → Option TenantId
      → UserId
      → List GroupName
      → Option (FlagOverride Float)
  first_override [] tenant_id user_id groups = none
  first_override (ov ∷ overrides) tenant_id user_id groups =
      elim (override_matches ov tenant_id user_id groups) [
        | true ↦ some ov
        | false ↦ first_override overrides tenant_id user_id groups
      ]

  -- `unwrap_or(FlagValue::Bool(true))`
  abbrev pub variant_or_true : Option (FlagValue Float) → FlagValue Float
  variant_or_true none = bool true
  variant_or_true (some v) = v

module _ (xxh64 : Str → ℕ) where
  unfoldable pub deterministic_bucket : Str → Option TenantId → UserId → ℕ
  deterministic_bucket flag tenant user = xxh64 (bucket_bytes flag tenant user) % 100

  module _ {Float : Type 0} where
    -- What is left after the overrides: the rollout, and the default.
    rolled_out :
        FlagName
        → FlagDefinition Float
        → Option TenantId
        → UserId
        → Option Percentage
        → FlagValue Float
    rolled_out name flag tenant_id user_id none = flag.default
    rolled_out name flag tenant_id user_id (some pct) =
        if ltb (deterministic_bucket (flag_text name) tenant_id user_id) pct.value
        then variant_or_true flag.rollout_variant
        else flag.default

    -- By the kill switch, then by the first override that matches.
    chosen :
        FlagName
        → FlagDefinition Float
        → Option TenantId
        → UserId
        → Bool
        → Option (FlagOverride Float)
        → FlagValue Float
    unfolding rolled_out
    chosen name flag tenant_id user_id false ov = flag.default
    chosen name flag tenant_id user_id true (some ov) = ov.value
    chosen name flag tenant_id user_id true none =
        rolled_out name flag tenant_id user_id flag.rollout_percentage

    unfoldable pub resolve_single_flag :
        FlagName
        → FlagDefinition Float
        → Option TenantId
        → UserId
        → List GroupName
        → FlagValue Float
    unfolding chosen
    resolve_single_flag name flag tenant_id user_id groups =
        chosen name flag tenant_id user_id flag.enabled
          (first_override flag.overrides tenant_id user_id groups)

    rolled_out_detailed :
        FlagName
        → FlagDefinition Float
        → Option TenantId
        → UserId
        → Option Percentage
        → ResolvedFlag Float
    rolled_out_detailed name flag tenant_id user_id none = record {
      value = flag.default;
      reason = default;
    }
    rolled_out_detailed name flag tenant_id user_id (some pct) =
        let bucket = deterministic_bucket (flag_text name) tenant_id user_id in
        if ltb bucket pct.value
        then record {
          value = variant_or_true flag.rollout_variant;
          reason = rollout bucket pct.value;
        }
        else record { value = flag.default; reason = rollout_excluded bucket pct.value }

    chosen_detailed :
        FlagName
        → FlagDefinition Float
        → Option TenantId
        → UserId
        → Bool
        → Option (FlagOverride Float)
        → ResolvedFlag Float
    unfolding rolled_out_detailed
    chosen_detailed name flag tenant_id user_id false ov = record {
      value = flag.default;
      reason = kill_switch;
    }
    chosen_detailed name flag tenant_id user_id true (some ov) = record {
      value = ov.value;
      reason = override (raw_of ov.tenant) (raw_of ov.user) (raw_of ov.group);
    }
    chosen_detailed name flag tenant_id user_id true none =
        rolled_out_detailed name flag tenant_id user_id flag.rollout_percentage

    unfoldable pub resolve_single_flag_detailed :
        FlagName
        → FlagDefinition Float
        → Option TenantId
        → UserId
        → List GroupName
        → ResolvedFlag Float
    unfolding chosen_detailed
    resolve_single_flag_detailed name flag tenant_id user_id groups =
        chosen_detailed name flag tenant_id user_id flag.enabled
          (first_override flag.overrides tenant_id user_id groups)

    -- The flags of a `FlagConfig`, in the order in which the map is iterated.
    unfoldable pub evaluate_into :
        List (FlagName × FlagDefinition Float)
        → Option TenantId
        → UserId
        → List GroupName
        → List (Str × FlagValue Float)
        → List (Str × FlagValue Float)
    evaluate_into [] tenant_id user_id groups flags = flags
    evaluate_into ((name, def) ∷ config) tenant_id user_id groups flags =
        evaluate_into config tenant_id user_id groups
          (insert (flag_text name) (resolve_single_flag name def tenant_id user_id groups) flags)

    unfoldable pub evaluate_flags :
        List (FlagName × FlagDefinition Float)
        → Option TenantId
        → UserId
        → List GroupName
        → List (Str × FlagValue Float)
    evaluate_flags config tenant_id user_id groups =
        evaluate_into config tenant_id user_id groups []

    unfoldable pub evaluate_detailed_into :
        List (FlagName × FlagDefinition Float)
        → Option TenantId
        → UserId
        → List GroupName
        → List (Str × ResolvedFlag Float)
        → List (Str × ResolvedFlag Float)
    evaluate_detailed_into [] tenant_id user_id groups flags = flags
    evaluate_detailed_into ((name, def) ∷ config) tenant_id user_id groups flags =
        evaluate_detailed_into config tenant_id user_id groups (
          insert (flag_text name) (resolve_single_flag_detailed name def tenant_id user_id groups)
            flags)

    unfoldable pub evaluate_flags_detailed :
        List (FlagName × FlagDefinition Float)
        → Option TenantId
        → UserId
        → List GroupName
        → List (Str × ResolvedFlag Float)
    evaluate_flags_detailed config tenant_id user_id groups =
        evaluate_detailed_into config tenant_id user_id groups []

-- `ResolvedFlags::enabled`
unfoldable pub flag_enabled : {Float : Type 0} → List (Str × FlagValue Float) → Str → Bool
flag_enabled flags flag = elim (lookup flag flags) [ some (bool true) ↦ true | _ ↦ false ]
