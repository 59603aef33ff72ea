-- ===== src/Authz/Rbac/Validation/Fields.antt =====
-- The fields of a group: what is required of them, and what an error says of them.
use forgeguard.Base.{
  ◌≢◌, ◌≤◌, ◌<◌, contains, length, ltb, Bool-cases, ==_refl, Str, ◌≡◌, refl, true, false, List, [],
  ◌∷◌, all, Option, none, some, nat_eq, list_eq, arith, ◌⊎◌, inl, inr, ◌∙◌, ap,
}
use forgeguard.Base.Result.{ok, err}
use forgeguard.Authz.Rbac.{RbacEntry}
use forgeguard.Authz.Rbac.Compile.{is_empty}
use forgeguard.Authz.Rbac.Validation.{
  Regex, name_matches, action_matches, validate_group_name, validate_action_format,
  validate_formats, validate_fields, GroupValidationError, bad_name_regex, bad_action_format,
  description_too_long, is_too_long,
}

-- What is required of the fields.
abbrev pub AreValid : RbacEntry → Type 0
AreValid entry =
    (name_matches entry.name ≡ true)
    × (entry.allow ≢ [])
    × ((d : Str) → entry.description ≡ some d → length d ≤ 1024)
    × (all action_matches entry.allow ≡ true)

-- What is wrong with a field, as the error says.
abbrev pub FieldFault : RbacEntry → GroupValidationError → Type 0
FieldFault entry e =
    ((e ≡ bad_name_regex entry.name) × (name_matches entry.name ≡ false))
    ⊎ (((e ≡ GroupValidationError.empty_allow) × (entry.allow ≡ []))
        ⊎ (((e ≡ description_too_long)
              × ((d : Str) × (entry.description ≡ some d) × (1024 < length d)))
            ⊎ ((action : Str) × (e ≡ bad_action_format action)
                × (contains entry.allow action ≡ true)
                × (action_matches action ≡ false))))

validate_formats-cases :
    (regex : Regex) (actions : List Str)
    → ((validate_formats regex actions ≡ ok tt) × (all action_matches actions ≡ true))
      ⊎ ((action : Str) × (validate_formats regex actions ≡ err (bad_action_format action))
          × (contains actions action ≡ true)
          × (action_matches action ≡ false))
unfolding validate_formats validate_action_format
validate_formats-cases regex [] = inl (refl, refl)
validate_formats-cases regex (a ∷ actions) = elim (Bool-cases (action_matches a)) [
  | inr n ↦ inr (a, rw (regex.is_match-action_format_re a ∙ n) refl, ground (arith, ==_refl a), n)
  | inl y ↦ elim (validate_formats-cases regex actions) [
    | inl (run, rest) ↦ inl (rw (regex.is_match-action_format_re a ∙ y) run, ground arith)
    | inr (bad, run, m, n) ↦
        inr (bad, rw (regex.is_match-action_format_re a ∙ y) run, ground arith, n)
  ]
]

is_too_long-cases :
    (description : Option Str)
    → ((is_too_long description ≡ false) × ((d : Str) → description ≡ some d → length d ≤ 1024))
      ⊎ ((is_too_long description ≡ true)
          × ((d : Str) × (description ≡ some d) × (1024 < length d)))
is_too_long-cases none = inl (refl, λ d e. cc)
is_too_long-cases (some d) = elim (Bool-cases (ltb 1024 (length d))) [
  | inl y ↦ inr (y, (d, refl, ground arith))
  | inr n ↦ inl (n, λ d' e. let same : d ≡ d' = cc in ground (arith, ap length same))
]

is_empty-cases :
    (actions : List Str)
    → ((is_empty actions ≡ true) × (actions ≡ [])) ⊎ ((is_empty actions ≡ false) × (actions ≢ []))
is_empty-cases [] = inl (refl, refl)
is_empty-cases (a ∷ actions) = inr (refl, λ e. cc)

-- The fields are accepted if they are valid; or the error says which is not.
pub validate_fields-cases :
    (regex : Regex) (entry : RbacEntry)
    → ((validate_fields regex entry ≡ ok tt) × AreValid entry)
      ⊎ ((e : GroupValidationError) × (validate_fields regex entry ≡ err e) × FieldFault entry e)
unfolding validate_fields validate_group_name
validate_fields-cases regex entry = elim (Bool-cases (name_matches entry.name)) [
  | inr n ↦ inr (
    bad_name_regex entry.name,
    rw (regex.is_match-group_name_re entry.name ∙ n) refl,
    inl (refl, n),
  )
  | inl y ↦
      let name = regex.is_match-group_name_re entry.name ∙ y in
      elim (is_empty-cases entry.allow) [
        | inl (e, none_allowed) ↦
            inr
              (GroupValidationError.empty_allow, rw (name, e) refl, inr (inl (refl, none_allowed)))
        | inr (e, some_allowed) ↦ elim (is_too_long-cases entry.description) [
          | inr (long, which) ↦
              inr (description_too_long, rw (name, e, long) refl, inr (inr (inl (refl, which))))
          | inl (short, bound) ↦ elim (validate_formats-cases regex entry.allow) [
            | inl (run, formats) ↦ inl (rw (name, e, short) run, (y, some_allowed, bound, formats))
            | inr (action, run, m, n) ↦ inr (
              bad_action_format action,
              rw (name, e, short) run,
              inr (inr (inr (action, refl, m, n))),
            )
          ]
        ]
      ]
]
