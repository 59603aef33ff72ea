-- ===== src/Authz/Rbac/Validation/Accepted.antt =====
-- What it says of a role that it was accepted.
use forgeguard.Base.{
  ℕ, Str, ◌≡◌, refl, Bool, true, false, ◌&&◌, ◌||◌, List, [], ◌∷◌, ◌++◌, all, all_mono, all-append,
  Option-cases, none, codes, nat_eq, list_eq, arith, ◌=ℕ◌, ◌⊎◌, inl, inr, ◌∙◌, ap, sym,
}
use forgeguard.Base.Text.{split_once, split_once_sound}
use forgeguard.Base.Result.{ok, err, ensure-eq-ok, >>=-eq-ok}
use forgeguard.Base.Assoc.{lookup, contains_key}
use forgeguard.Authz.Rbac.{
  RbacEntry, resolve_inherits, cycle_message, unknown_message, not_found_message,
}
use forgeguard.Authz.Rbac.Walk.{Inherits, Reaches}
use forgeguard.Authz.Rbac.Resolve.{AreActions, Refused, rbac_of, inherits_of, resolve_inherits_lem}
use forgeguard.Authz.Rbac.Compile.{
  TenantConfig, has_invalid, validate_cedar_ident, validate_actions, validate_attributes,
  permit_text, compile_rbac_to_cedar, is_empty,
}
use forgeguard.Authz.Rbac.Validation.{
  Regex, name_byte, name_matches, action_matches, validate_group_name, validate_action_format,
  validate_formats, validate_fields, validate_rbac_entry, GroupValidationError, inherit_cycle,
  unknown_inherit, map_resolve_err, rejected,
}
use forgeguard.Authz.Rbac.Validation.Fields.{AreValid, FieldFault, validate_fields-cases}

-- A byte of a name or a colon.
abbrev safe : ℕ → Bool
safe b = name_byte b || b =ℕ b':'

abbrev nonempty : Str → Bool
nonempty [] = false
nonempty (b ∷ s) = true

has_invalid-safe : (s : Str) → all safe s ≡ true → has_invalid s ≡ false
unfolding has_invalid
has_invalid-safe [] h = refl
has_invalid-safe (b ∷ []) h = ground arith
has_invalid-safe (b ∷ c ∷ s) h = ground (arith, has_invalid-safe (c ∷ s))

name_matches-safe : (s : Str) → name_matches s ≡ true → all safe s ≡ true
name_matches-safe [] h = refl
name_matches-safe (b ∷ s) h =
    let bytes = all_mono name_byte safe s (λ c y. ground arith) (ground arith) in ground arith

-- Two texts with a colon between them.
all-safe :
    (s a r : Str) → s ≡ a ++ b':' ∷ r → all safe a ≡ true → all safe r ≡ true → all safe s ≡ true
all-safe s a r e ha hr = ap (all safe) e ∙ all-append safe a (b':' ∷ r) ∙ ground arith

action_matches-safe : (s : Str) → action_matches s ≡ true → all safe s ≡ true
action_matches-safe s h = elim (Option-cases (split_once b':' s)) [
  | inl n ↦ absurd (ground (arith, n))
  | inr ((a, r), e) ↦ elim (Option-cases (split_once b':' r)) [
    | inl n ↦ absurd (ground (arith, e, n))
    | inr ((b, c), f) ↦
        let matched : (name_matches a && (name_matches b && name_matches c)) ≡ true =
          rw (e, f, action_matches) at h in
        let first = name_matches-safe a (ground arith) in
        let second = name_matches-safe b (ground arith) in
        let third = name_matches-safe c (ground arith) in
        all-safe s a r (split_once_sound b':' s a r e).0 first
          (all-safe r b c (split_once_sound b':' r b c f).0 second third)
  ]
]

action_matches-nonempty : (s : Str) → action_matches s ≡ true → nonempty s ≡ true
unfolding split_once
action_matches-nonempty [] h = cc
action_matches-nonempty (b ∷ s) h = refl

name_matches-nonempty : (s : Str) → name_matches s ≡ true → nonempty s ≡ true
name_matches-nonempty [] h = cc
name_matches-nonempty (b ∷ s) h = refl

validate_cedar_ident-safe :
    (s label : Str) → nonempty s ≡ true → all safe s ≡ true → validate_cedar_ident s label ≡ ok tt
unfolding validate_cedar_ident
validate_cedar_ident-safe [] label n h = cc
validate_cedar_ident-safe (b ∷ s) label n h = rw (has_invalid-safe (b ∷ s) h) refl

validate_actions-formats :
    (regex : Regex) (actions : List Str)
    → validate_formats regex actions ≡ ok tt
    → validate_actions actions ≡ ok tt
unfolding validate_formats validate_action_format validate_actions
validate_actions-formats regex [] h = refl
validate_actions-formats regex (a ∷ actions) h =
    let (_, matched, rest) =
      >>=-eq-ok (validate_action_format regex a) (λ _. validate_formats regex actions) h in
    let safe =
      action_matches-safe a (sym (regex.is_match-action_format_re a) ∙ ensure-eq-ok _ _ matched) in
    rw
      (
        validate_cedar_ident-safe a (codes "action")
            (action_matches-nonempty a
              (sym (regex.is_match-action_format_re a) ∙ ensure-eq-ok _ _ matched))
            safe,
        validate_actions-formats regex actions rest,
      )
      refl

-- What the fields of an accepted role are.
validate_fields-ok :
    (regex : Regex) (proposed : RbacEntry)
    → validate_fields regex proposed ≡ ok tt
    → (name_matches proposed.name ≡ true)
      × (is_empty proposed.allow ≡ false)
      × (validate_formats regex proposed.allow ≡ ok tt)
unfolding validate_fields validate_group_name
validate_fields-ok regex proposed h =
    let law = regex.is_match-group_name_re proposed.name in ground arith

attributes-scoped :
    (scoped : Bool) (tenant : TenantConfig)
    → validate_attributes tenant.enabled tenant ≡ ok tt
    → validate_attributes (scoped && tenant.enabled) tenant ≡ ok tt
attributes-scoped true tenant h = h
attributes-scoped false tenant h = refl

-- Fields that are accepted can be compiled.
compile-validate_fields :
    (regex : Regex) (proposed : RbacEntry) (tenant : TenantConfig) (namespace : Str)
    → validate_attributes tenant.enabled tenant ≡ ok tt
    → validate_fields regex proposed ≡ ok tt
    → (statement : Str) × (compile_rbac_to_cedar proposed tenant namespace ≡ ok statement)
unfolding compile_rbac_to_cedar
compile-validate_fields regex proposed tenant namespace h valid =
    let (name, allow, formats) = validate_fields-ok regex proposed valid in
    (
      permit_text proposed tenant namespace,
      rw
          (
            validate_cedar_ident-safe proposed.name (codes "role name")
                (name_matches-nonempty proposed.name name) (name_matches-safe proposed.name name),
            allow,
            validate_actions-formats regex proposed.allow formats,
            attributes-scoped proposed.tenant_scoped tenant h,
          )
          refl,
    )

-- What an accepted role is: it resolves, to its actions, and compiles.
abbrev pub Usable : RbacEntry → List RbacEntry → TenantConfig → Str → Type 0
Usable entry all_after tenant namespace =
    ((actions : List Str) × (resolve_inherits all_after entry.name ≡ ok actions)
      × AreActions all_after entry.name actions)
    × ((statement : Str) × (compile_rbac_to_cedar entry tenant namespace ≡ ok statement))

-- Why a role is rejected: a field, a cycle of inheritance that it reaches, or a role that is not there,
-- itself or one that it inherits from.
abbrev pub Reason : RbacEntry → List RbacEntry → GroupValidationError → Type 0
Reason proposed all_after e =
    FieldFault proposed e
    ⊎ (((role : Str) × (e ≡ inherit_cycle (cycle_message role))
          × Reaches (inherits_of all_after) proposed.name role
          × Inherits (inherits_of all_after) role role)
        ⊎ (((e ≡ unknown_inherit (not_found_message proposed.name))
              × (contains_key (rbac_of all_after) proposed.name ≡ false))
            ⊎ ((role : Str) × (e ≡ unknown_inherit (unknown_message role))
                × Inherits (inherits_of all_after) proposed.name role
                × (lookup role (rbac_of all_after) ≡ none))))

Reason-map_resolve_err :
    (proposed : RbacEntry) (all_after : List RbacEntry) (message : Str)
    → Refused all_after proposed.name message
    → Reason proposed all_after (map_resolve_err message)
unfolding map_resolve_err
Reason-map_resolve_err proposed all_after message (inl (m, absent)) =
    inr (inr (inl (rw m refl, absent)))
Reason-map_resolve_err proposed all_after message (inr (inl (role, m, way, cyclic))) =
    inr (inl (role, rw m refl, way, cyclic))
Reason-map_resolve_err proposed all_after message (inr (inr (role, m, way, absent))) =
    inr (inr (inr (role, rw m refl, way, absent)))

-- The validation of a group ends, and accepts or rejects it. An accepted entry is the one proposed;
-- its name and its actions have their formats, it allows some action, and its description has at
-- most 1024 bytes; its inheritance resolves to the actions of the role and of those that it inherits
-- from, with no cycle and no missing role among these; and it compiles to Cedar. A rejected one has a
-- field that is not so, or it or a role that it inherits from inherits from itself, or it is not
-- there, or a role that it inherits from is not; and the error says which. The attributes of the
-- tenant, if they are used at all, are such as the compiler accepts.
pub validate_rbac_entry_lem :
    (regex : Regex) (proposed : RbacEntry) (all_after : List RbacEntry) (tenant : TenantConfig)
    (namespace : Str)
    → validate_attributes tenant.enabled tenant ≡ ok tt
    → ((validate_rbac_entry regex proposed all_after ≡ ok proposed)
        × AreValid proposed
        × Usable proposed all_after tenant namespace)
      ⊎ ((e : GroupValidationError) × (validate_rbac_entry regex proposed all_after
            ≡ err (rejected e))
          × Reason proposed all_after e)
unfolding validate_rbac_entry
validate_rbac_entry_lem regex proposed all_after tenant namespace h =
    elim (validate_fields-cases regex proposed) [
      | inr (e, bad, fault) ↦ inr (e, rw bad refl, inl fault)
      | inl (valid, fields) ↦ elim (resolve_inherits_lem all_after proposed.name) [
        | inl (actions, run, are) ↦ inl (
          rw (valid, run) refl,
          fields,
          ((actions, run, are), compile-validate_fields regex proposed tenant namespace h valid),
        )
        | inr (message, run, refused) ↦ inr (
          map_resolve_err message,
          rw (valid, run) refl,
          Reason-map_resolve_err proposed all_after message refused,
        )
      ]
    ]
