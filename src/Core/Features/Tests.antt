-- ===== src/Core/Features/Tests.antt =====
-- Two flags, evaluated for a user of acme.
use forgeguard.Base.{
  ◌≡◌, ◌⊎◌, ◌<◌, refl, inl, arith, ℕ, Str, true, false, nat_eq, list_eq, List, [], ◌∷◌, none, some,
  codes, length,
}
use forgeguard.Base.Assoc.{lookup}
use forgeguard.Core.Segment.{Segment}
use forgeguard.Core.Flag.{
  Percentage, FlagName, global, flag_text, bool, FlagDefinition, boolean, ResolvedFlag, rollout,
  rollout_excluded,
}
use forgeguard.Core.Features.{
  deterministic_bucket, evaluate_flags, evaluate_flags_detailed, resolve_single_flag_detailed,
}
use forgeguard.Core.Features.Reasons.{
  Explains, with_rollout, evaluate_flags-Explains, resolve_single_flag-rollout,
}

abbrev seg : Str → Segment
seg s = record { raw = s }

abbrev beta : FlagName
beta = global (seg (codes "beta"))

abbrev beta_flag : FlagDefinition ℕ
beta_flag = record {
  flag_type = boolean;
  default = bool false;
  enabled = true;
  overrides =
      record { tenant = some (seg (codes "acme")); user = none; group = none; value = bool true }
      ∷ [];
  rollout_percentage = some (record { value = 30 });
  rollout_variant = none;
}

abbrev config : List (FlagName × FlagDefinition ℕ)
config = (beta, beta_flag) ∷ (global (seg (codes "dark")), record beta_flag { overrides = [] }) ∷ []

evaluate_flags-Explains_example :
    (r : ResolvedFlag ℕ) × (lookup
        (flag_text beta)
        (evaluate_flags length config (some (seg (codes "acme"))) (seg (codes "ann")) [])
      ≡ some r.value)
    × (lookup
          (flag_text beta)
          (evaluate_flags_detailed length config (some (seg (codes "acme"))) (seg (codes "ann")) [])
        ≡ some r)
    × Explains length
        (some (seg (codes "acme")))
        (seg (codes "ann"))
        []
        beta
        beta_flag
        r.reason
        r.value
unfolding flag_text
evaluate_flags-Explains_example =
    evaluate_flags-Explains length (some (seg (codes "acme"))) (seg (codes "ann")) [] config beta
      beta_flag refl (inl (refl, refl))

abbrev ann_at : Percentage → ResolvedFlag ℕ
ann_at pct =
    resolve_single_flag_detailed length beta
      (with_rollout length none (seg (codes "ann")) [] beta_flag pct) none (seg (codes "ann")) []

abbrev bucket : ℕ
bucket = deterministic_bucket length (flag_text beta) none (seg (codes "ann"))

resolve_single_flag-rollout_example :
    (bucket < 100)
    × ((ann_at (record { value = 100 })).value ≡ bool true)
    × ((ann_at (record { value = 0 })).value ≡ bool false)
    × (((ann_at (record { value = 10 })).reason ≡ rollout_excluded bucket 10)
        ⊎ (((ann_at (record { value = 10 })).reason ≡ rollout bucket 10)
            × ((ann_at (record { value = 30 })).reason ≡ rollout bucket 30)))
resolve_single_flag-rollout_example =
    resolve_single_flag-rollout length none (seg (codes "ann")) [] beta beta_flag
      (record { value = 10 }) (record { value = 30 }) refl refl (omega arith)
