-- ===== src/Core/Features/Reasons.antt =====
-- Why a flag has its value: the kill switch, the first matching override, the rollout, the default.
use forgeguard.Base.{
  ℕ, ◌<◌, ◌≤◌, Str, ◌≡◌, ◌⊎◌, ◌∙◌, refl, sym, ap, ap₂, Bool, true, false, not, List, [], ◌∷◌, ◌++◌,
  Option, none, some, ltb, all, distinct, nat_eq, list_eq, arith, Bool-cases, inl, inr,
}
use forgeguard.Base.Assoc.{lookup}
use forgeguard.Core.Segment.{segment_eq}
use forgeguard.Core.Action.{TenantId, UserId, GroupName}
use forgeguard.Core.Flag.{
  Percentage, FlagName, flag_text, FlagValue, FlagOverride, FlagDefinition, ResolvedFlag,
  ResolutionReason, kill_switch, override, rollout, rollout_excluded, default,
}
use forgeguard.Core.Features.{
  override_matches, raw_of, first_override, variant_or_true, deterministic_bucket,
  rolled_out_detailed, chosen_detailed, resolve_single_flag_detailed, evaluate_flags,
  evaluate_flags_detailed,
}
use forgeguard.Core.Features.Laws.{
  texts, Configured, resolve_single_flag_value, lookup-evaluate_flags,
  lookup-evaluate_flags_detailed,
}

module _ (xxh64 : Str → ℕ) {Float : Type 0} (tenant : Option TenantId) (user : UserId)
    (groups : List GroupName) where
  -- No override of the list applies.
  abbrev pub NoneMatches : List (FlagOverride Float) → Type 0
  NoneMatches overrides = all (λ ov. not (override_matches ov tenant user groups)) overrides ≡ true

  -- The override is in the list, it applies, and none before it does.
  abbrev pub IsFirst : FlagOverride Float → List (FlagOverride Float) → Type 0
  IsFirst ov overrides =
      (before : List (FlagOverride Float)) × (after : List (FlagOverride Float)) × (overrides
        ≡ before ++ ov ∷ after)
      × NoneMatches before
      × (override_matches ov tenant user groups ≡ true)

  -- What the reason of a result says of the flag, and the value that goes with it.
  abbrev pub Explains :
      FlagName → FlagDefinition Float → ResolutionReason → FlagValue Float → Type 0
  Explains name flag kill_switch value = (flag.enabled ≡ false) × (value ≡ flag.default)
  Explains name flag (override t u g) value =
      (flag.enabled ≡ true)
      × ((ov : FlagOverride Float) × IsFirst ov flag.overrides
          × (t ≡ raw_of ov.tenant)
          × (u ≡ raw_of ov.user)
          × (g ≡ raw_of ov.group)
          × (value ≡ ov.value))
  Explains name flag (rollout bucket threshold) value =
      (flag.enabled ≡ true)
      × NoneMatches flag.overrides
      × (flag.rollout_percentage ≡ some (record { value = threshold }))
      × (bucket ≡ deterministic_bucket xxh64 (flag_text name) tenant user)
      × (bucket < threshold)
      × (value ≡ variant_or_true flag.rollout_variant)
  Explains name flag (rollout_excluded bucket threshold) value =
      (flag.enabled ≡ true)
      × NoneMatches flag.overrides
      × (flag.rollout_percentage ≡ some (record { value = threshold }))
      × (bucket ≡ deterministic_bucket xxh64 (flag_text name) tenant user)
      × (threshold ≤ bucket)
      × (value ≡ flag.default)
  Explains name flag default value =
      (flag.enabled ≡ true)
      × NoneMatches flag.overrides
      × (flag.rollout_percentage ≡ none)
      × (value ≡ flag.default)

  first_override-cases :
      (overrides : List (FlagOverride Float))
      → ((first_override overrides tenant user groups ≡ none) × NoneMatches overrides)
        ⊎ ((ov : FlagOverride Float) × (first_override overrides tenant user groups ≡ some ov)
            × IsFirst ov overrides)
  unfolding first_override
  first_override-cases [] = inl (refl, refl)
  first_override-cases (ov ∷ overrides) =
      elim (Bool-cases (override_matches ov tenant user groups)) [
        | inl y ↦ inr (ov, rw (y, first_override) refl, ([], overrides, refl, refl, y))
        | inr n ↦ elim (first_override-cases overrides) [
          | inl (e, none_matches) ↦ inl (rw (n, first_override) e, rw n none_matches)
          | inr (found, e, (before, after, same, none_before, applies)) ↦ inr (
            found,
            rw (n, first_override) e,
            (ov ∷ before, after, ap (λ l. ov ∷ l) same, rw n none_before, applies),
          )
        ]
      ]

  rolled_out_explained :
      (name : FlagName) (flag : FlagDefinition Float) (pct : Option Percentage)
      → flag.enabled ≡ true
      → NoneMatches flag.overrides
      → flag.rollout_percentage ≡ pct
      → Explains name flag
          (rolled_out_detailed xxh64 name flag tenant user pct).reason
          (rolled_out_detailed xxh64 name flag tenant user pct).value
  unfolding rolled_out_detailed
  rolled_out_explained name flag none y m e = (y, m, e, refl)
  rolled_out_explained name flag (some pct) y m e =
      elim (Bool-cases (ltb (deterministic_bucket xxh64 (flag_text name) tenant user) pct.value)) [
        | inl lt ↦ rw (lt, rolled_out_detailed) (y, m, e, refl, ground arith, refl)
        | inr ge ↦ rw (ge, rolled_out_detailed) (y, m, e, refl, ground arith, refl)
      ]

  chosen_explained :
      (name : FlagName) (flag : FlagDefinition Float)
      → Explains name flag
          (resolve_single_flag_detailed xxh64 name flag tenant user groups).reason
          (resolve_single_flag_detailed xxh64 name flag tenant user groups).value
  unfolding resolve_single_flag_detailed
  chosen_explained name flag =
      split flag.enabled (first_override flag.overrides tenant user groups) refl
        (first_override-cases flag.overrides)
    where
      split :
          (enabled : Bool) (o : Option (FlagOverride Float))
          → flag.enabled ≡ enabled
          → (((o ≡ none) × NoneMatches flag.overrides)
              ⊎ ((ov : FlagOverride Float) × (o ≡ some ov) × IsFirst ov flag.overrides))
          → Explains name flag
              (chosen_detailed xxh64 name flag tenant user enabled o).reason
              (chosen_detailed xxh64 name flag tenant user enabled o).value
      split false o e cases = (e, refl)
      split true (some ov) e (inl (f, _)) = cc
      split true (some ov) e (inr (ov', same, first)) =
          let back : ov' ≡ ov = cc in
          let same : ov ≡ ov' = sym back in
          (
            e,
            (
              ov',
              first,
              ap (λ (x : FlagOverride Float). raw_of x.tenant) same,
              ap (λ (x : FlagOverride Float). raw_of x.user) same,
              ap (λ (x : FlagOverride Float). raw_of x.group) same,
              ap (λ (x : FlagOverride Float). x.value) same,
            ),
          )
      split true none e (inl (_, m)) =
          rolled_out_explained name flag flag.rollout_percentage e m refl
      split true none e (inr (ov', same, first)) = cc

  -- Both evaluations give every configured flag a value, the same one, if no two flags have one text;
  -- and the reason that the detailed one reports is true: the flag is off; or the value is that of the
  -- first override that matches the tenant, the user and the groups, and the reason has this
  -- override's tenant, user and group; or no override matches, and the user's bucket is below the
  -- rollout's threshold, or it is not, or there is no rollout.
  pub evaluate_flags-Explains :
      (config : List (FlagName × FlagDefinition Float)) (name : FlagName)
      (flag : FlagDefinition Float)
      → distinct (texts config) ≡ true
      → Configured name flag config
      → (r : ResolvedFlag Float) × (lookup
            (flag_text name)
            (evaluate_flags xxh64 config tenant user groups)
          ≡ some r.value)
        × (lookup (flag_text name) (evaluate_flags_detailed xxh64 config tenant user groups)
            ≡ some r)
        × Explains name flag r.reason r.value
  unfolding evaluate_flags evaluate_flags_detailed
  evaluate_flags-Explains config name flag d h = (
    resolve_single_flag_detailed xxh64 name flag tenant user groups,
    lookup-evaluate_flags xxh64 tenant user groups config [] name flag d h
        ∙ ap some (sym (resolve_single_flag_value xxh64 tenant user groups name flag)),
    lookup-evaluate_flags_detailed xxh64 tenant user groups config [] name flag d h,
    chosen_explained name flag,
  )

  abbrev pub with_rollout : FlagDefinition Float → Percentage → FlagDefinition Float
  with_rollout flag pct = record flag { rollout_percentage = some pct }

  first_override-none :
      (overrides : List (FlagOverride Float))
      → NoneMatches overrides
      → first_override overrides tenant user groups ≡ none
  unfolding first_override
  first_override-none [] m = refl
  first_override-none (ov ∷ overrides) m = ground (arith, first_override-none overrides)

  settled :
      (name : FlagName) (flag : FlagDefinition Float) (pct : Percentage)
      → flag.enabled ≡ true
      → NoneMatches flag.overrides
      → resolve_single_flag_detailed xxh64 name (with_rollout flag pct) tenant user groups
        ≡ rolled_out_detailed xxh64 name (with_rollout flag pct) tenant user (some pct)
  unfolding resolve_single_flag_detailed
  settled name flag pct y m =
      ap₂ (λ b o. chosen_detailed xxh64 name (with_rollout flag pct) tenant user b o) y
        (first_override-none flag.overrides m)

  -- A rollout only ever grows. For a flag that is on and whose overrides do not match, the bucket is
  -- below 100, a rollout of 100 reaches every user and one of 0 none, and a user whom a rollout
  -- reaches is reached by every larger one, in the same bucket.
  pub resolve_single_flag-rollout :
      (name : FlagName) (flag : FlagDefinition Float) (p q : Percentage)
      → flag.enabled ≡ true
      → NoneMatches flag.overrides
      → p.value ≤ q.value
      → let bucket = deterministic_bucket xxh64 (flag_text name) tenant user in
        let at = λ (pct : Percentage).
          resolve_single_flag_detailed xxh64 name (with_rollout flag pct) tenant user groups in
        (bucket < 100)
        × ((at (record { value = 100 })).value ≡ variant_or_true flag.rollout_variant)
        × ((at (record { value = 0 })).value ≡ flag.default)
        × (((at p).reason ≡ rollout_excluded bucket p.value)
            ⊎ (((at p).reason ≡ rollout bucket p.value) × ((at q).reason ≡ rollout bucket q.value)))
  unfolding deterministic_bucket rolled_out_detailed
  resolve_single_flag-rollout name flag p q y m le =
      let hundred : Percentage = record { value = 100 } in
      let zero_pct : Percentage = record { value = 0 } in
      (
        omega arith,
        rw (settled name flag hundred y m) (ground arith),
        rw (settled name flag zero_pct y m) (ground arith),
        rw (settled name flag p y m, settled name flag q y m) (ground arith),
      )
