-- ===== src/Core/Features/Laws.antt =====
-- What the two evaluations of feature flags have in common, and what a rollout reaches.
use forgeguard.Base.{
  ℕ, Str, ◌≡◌, ◌⊎◌, ◌∙◌, refl, sym, ap, ap₂, Bool, true, false, List, [], ◌∷◌, Option, none, some,
  contains, distinct, list_eq, nat_eq, list_beq_iff, arith, inl, inr,
}
use forgeguard.Base.Assoc.{lookup, insert, lookup-insert}
use forgeguard.Core.Action.{TenantId, UserId, GroupName}
use forgeguard.Core.Flag.{
  Percentage, FlagName, flag_text, FlagValue, FlagDefinition, ResolvedFlag, FlagOverride,
}
use forgeguard.Core.Features.{
  chosen, chosen_detailed, first_override, rolled_out, rolled_out_detailed, resolve_single_flag,
  resolve_single_flag_detailed, evaluate_into, evaluate_detailed_into,
}

abbrev pub texts {ℓ} : {A : Type ℓ} → List (FlagName × A) → List Str
texts [] = []
texts ((name, def) ∷ config) = flag_text name ∷ texts config

-- The flag is in the configuration with that definition.
abbrev pub Configured : {A : Type 0} → FlagName → A → List (FlagName × A) → Type 0
Configured name def [] = ⊥
Configured name def ((n, d) ∷ config) = ((n ≡ name) × (d ≡ def)) ⊎ Configured name def config

contains_of_Configured :
    {A : Type 0} (name : FlagName) (def : A) (config : List (FlagName × A))
    → Configured name def config
    → contains (texts config) (flag_text name) ≡ true
contains_of_Configured name def [] h = absurd h
contains_of_Configured name def ((n, d) ∷ config) (inl (e, _)) =
    ground (arith, list_beq_iff (flag_text name) (flag_text n), ap flag_text e)
contains_of_Configured name def ((n, d) ∷ config) (inr h) =
    ground (arith, contains_of_Configured name def config h)

module _ (xxh64 : Str → ℕ) {Float : Type 0} (tenant : Option TenantId) (user : UserId)
    (groups : List GroupName) where
  rolled_out_value :
      (name : FlagName) (flag : FlagDefinition Float) (pct : Option Percentage)
      → (rolled_out_detailed xxh64 name flag tenant user pct).value
        ≡ rolled_out xxh64 name flag tenant user pct
  unfolding rolled_out rolled_out_detailed
  rolled_out_value name flag none = refl
  rolled_out_value name flag (some pct) = ground arith

  chosen_value :
      (name : FlagName) (flag : FlagDefinition Float) (enabled : Bool)
      (ov : Option (FlagOverride Float))
      → (chosen_detailed xxh64 name flag tenant user enabled ov).value
        ≡ chosen xxh64 name flag tenant user enabled ov
  unfolding chosen chosen_detailed
  chosen_value name flag false ov = refl
  chosen_value name flag true (some ov) = refl
  chosen_value name flag true none = rolled_out_value name flag flag.rollout_percentage

  pub resolve_single_flag_value :
      (name : FlagName) (flag : FlagDefinition Float)
      → (resolve_single_flag_detailed xxh64 name flag tenant user groups).value
        ≡ resolve_single_flag xxh64 name flag tenant user groups
  unfolding resolve_single_flag resolve_single_flag_detailed
  resolve_single_flag_value name flag =
      chosen_value name flag flag.enabled (first_override flag.overrides tenant user groups)

  lookup-evaluate_into :
      (config : List (FlagName × FlagDefinition Float)) (flags : List (Str × FlagValue Float))
      (k : Str)
      → contains (texts config) k ≡ false
      → lookup k (evaluate_into xxh64 config tenant user groups flags) ≡ lookup k flags
  unfolding evaluate_into
  lookup-evaluate_into [] flags k h = refl
  lookup-evaluate_into ((name, def) ∷ config) flags k h =
      let value = resolve_single_flag xxh64 name def tenant user groups in
      lookup-evaluate_into config (insert (flag_text name) value flags) k (ground arith)
      ∙ ground (
        arith,
        lookup-insert (flag_text name) k value flags,
        list_beq_iff (flag_text name) k,
        list_beq_iff k (flag_text name),
      )

  lookup-evaluate_detailed_into :
      (config : List (FlagName × FlagDefinition Float)) (flags : List (Str × ResolvedFlag Float))
      (k : Str)
      → contains (texts config) k ≡ false
      → lookup k (evaluate_detailed_into xxh64 config tenant user groups flags) ≡ lookup k flags
  unfolding evaluate_detailed_into
  lookup-evaluate_detailed_into [] flags k h = refl
  lookup-evaluate_detailed_into ((name, def) ∷ config) flags k h =
      let value = resolve_single_flag_detailed xxh64 name def tenant user groups in
      lookup-evaluate_detailed_into config (insert (flag_text name) value flags) k (ground arith)
      ∙ ground (
        arith,
        lookup-insert (flag_text name) k value flags,
        list_beq_iff (flag_text name) k,
        list_beq_iff k (flag_text name),
      )

  pub lookup-evaluate_flags :
      (config : List (FlagName × FlagDefinition Float)) (flags : List (Str × FlagValue Float))
      (name : FlagName) (def : FlagDefinition Float)
      → distinct (texts config) ≡ true
      → Configured name def config
      → lookup (flag_text name) (evaluate_into xxh64 config tenant user groups flags)
        ≡ some (resolve_single_flag xxh64 name def tenant user groups)
  unfolding evaluate_into
  lookup-evaluate_flags [] flags name def d h = absurd h
  lookup-evaluate_flags ((n, x) ∷ config) flags name def d (inl (e, e')) =
      let value = resolve_single_flag xxh64 n x tenant user groups in
      ap
        (λ k.
          lookup (flag_text k)
            (evaluate_into xxh64 config tenant user groups (insert (flag_text n) value flags)))
        (sym e)
      ∙ lookup-evaluate_into config (insert (flag_text n) value flags) (flag_text n) (ground arith)
      ∙ ground (
        arith,
        lookup-insert (flag_text n) (flag_text n) value flags,
        list_beq_iff (flag_text n) (flag_text n),
      )
      ∙ ap₂ (λ k y. some (resolve_single_flag xxh64 k y tenant user groups)) e e'
  lookup-evaluate_flags ((n, x) ∷ config) flags name def d (inr h) =
      lookup-evaluate_flags config _ name def (ground arith) h

  pub lookup-evaluate_flags_detailed :
      (config : List (FlagName × FlagDefinition Float)) (flags : List (Str × ResolvedFlag Float))
      (name : FlagName) (def : FlagDefinition Float)
      → distinct (texts config) ≡ true
      → Configured name def config
      → lookup (flag_text name) (evaluate_detailed_into xxh64 config tenant user groups flags)
        ≡ some (resolve_single_flag_detailed xxh64 name def tenant user groups)
  unfolding evaluate_detailed_into
  lookup-evaluate_flags_detailed [] flags name def d h = absurd h
  lookup-evaluate_flags_detailed ((n, x) ∷ config) flags name def d (inl (e, e')) =
      let value = resolve_single_flag_detailed xxh64 n x tenant user groups in
      ap
        (λ k. lookup (flag_text k) (
          evaluate_detailed_into xxh64 config tenant user groups
            (insert (flag_text n) value flags)))
        (sym e)
      ∙ lookup-evaluate_detailed_into config (insert (flag_text n) value flags) (flag_text n)
          (ground arith)
      ∙ ground (
        arith,
        lookup-insert (flag_text n) (flag_text n) value flags,
        list_beq_iff (flag_text n) (flag_text n),
      )
      ∙ ap₂ (λ k y. some (resolve_single_flag_detailed xxh64 k y tenant user groups)) e e'
  lookup-evaluate_flags_detailed ((n, x) ∷ config) flags name def d (inr h) =
      lookup-evaluate_flags_detailed config _ name def (ground arith) h
