-- ===== src/Authz/Rbac/Tests.antt =====
-- Two roles, of which one inherits from the other, and a role that inherits from itself.
use forgeguard.Base.{
  if◌then◌else◌, ◌==◌, Str, ◌≡◌, ◌⊎◌, refl, true, List, [], ◌∷◌, none, codes, nat_eq, list_eq,
}
use forgeguard.Base.Text.{split_once}
use forgeguard.Base.Assoc.{lookup, insert}
use forgeguard.Base.Sets.{insert_set, remove_set}
use forgeguard.Base.Result.{ok, err}
use forgeguard.Authz.Rbac.{
  RbacEntry, resolve_inherits, failed, cycle_message, collect, collect_all, add_actions,
}
use forgeguard.Authz.Rbac.Resolve.{resolve_inherits_lem, AreActions, Refused}
use forgeguard.Authz.Rbac.Compile.{
  invalid_ident, tenant_config_default, validate_attributes, validate_cedar_ident, has_invalid,
  validate_actions, compile_rbac_to_cedar,
}
use forgeguard.Authz.Rbac.Validation.{
  Regex, group_name_re, name_matches, action_matches, validate_rbac_entry, validate_fields,
  validate_group_name, validate_formats, validate_action_format, GroupValidationError, rejected,
}
use forgeguard.Authz.Rbac.Validation.Fields.{AreValid}
use forgeguard.Authz.Rbac.Validation.Accepted.{validate_rbac_entry_lem, Usable, Reason}
use mathlib.Core.List.{Perm}
use forgeguard.Authz.Rbac.Permits.{
  NamedPermit, MaterializeCompileError, groups_to_permits, sort_entries, put_entry, permits_of,
}
use forgeguard.Authz.Rbac.Permits.Materialized.{
  groups_to_permits_lem, is_sorted, ArePermits, FirstFailure,
}

abbrev member : RbacEntry
member = record {
  name = codes "m";
  description = none;
  inherits = [];
  allow = codes "r" ∷ [];
  tenant_scoped = true;
}

abbrev admin : RbacEntry
admin = record {
  name = codes "a";
  description = none;
  inherits = codes "m" ∷ [];
  allow = codes "w" ∷ [];
  tenant_scoped = true;
}

resolve_inherits_lem_example :
    ((actions : List Str) × (resolve_inherits (member ∷ admin ∷ []) (codes "a") ≡ ok actions)
      × AreActions (member ∷ admin ∷ []) (codes "a") actions)
    ⊎ ((message : Str) × (resolve_inherits (member ∷ admin ∷ []) (codes "a") ≡ err (failed message))
        × Refused (member ∷ admin ∷ []) (codes "a") message)
resolve_inherits_lem_example = resolve_inherits_lem (member ∷ admin ∷ []) (codes "a")

admin_actions : resolve_inherits (member ∷ admin ∷ []) (codes "a") ≡ ok (codes "w" ∷ codes "r" ∷ [])
unfolding resolve_inherits collect collect_all add_actions lookup insert insert_set remove_set
admin_actions = refl

self_cycle :
    resolve_inherits (record member { inherits = codes "m" ∷ [] } ∷ []) (codes "m")
    ≡ err (failed (cycle_message (codes "m")))
unfolding resolve_inherits collect collect_all add_actions lookup insert insert_set remove_set
self_cycle = refl

-- Two patterns, matched as they should be.
abbrev regex : Regex
regex = record {
  is_match = λ pattern s. if pattern == group_name_re then name_matches s else action_matches s;
  is_match-group_name_re = λ s. refl;
  is_match-action_format_re = λ s. refl;
}

abbrev reader : RbacEntry
reader = record {
  name = codes "reader";
  description = none;
  inherits = [];
  allow = codes "cp:doc:read" ∷ [];
  tenant_scoped = true;
}

default_attributes : validate_attributes true tenant_config_default ≡ ok tt
unfolding validate_cedar_ident has_invalid
default_attributes = refl

validate_rbac_entry_lem_example :
    ((validate_rbac_entry regex reader (reader ∷ []) ≡ ok reader)
      × AreValid reader
      × Usable reader (reader ∷ []) tenant_config_default (codes "cp"))
    ⊎ ((e : GroupValidationError) × (validate_rbac_entry regex reader (reader ∷ [])
          ≡ err (rejected e))
        × Reason reader (reader ∷ []) e)
validate_rbac_entry_lem_example =
    validate_rbac_entry_lem regex reader (reader ∷ []) tenant_config_default (codes "cp")
      default_attributes

reader_accepted : validate_rbac_entry regex reader (reader ∷ []) ≡ ok reader
unfolding validate_rbac_entry validate_fields validate_group_name validate_formats
    validate_action_format split_once resolve_inherits collect collect_all add_actions lookup insert
    insert_set remove_set
reader_accepted = refl

reader_permit :
    compile_rbac_to_cedar reader tenant_config_default (codes "cp")
    ≡ ok (
        codes
          "permit(\n  principal in cp::Group::\"reader\",\n  action in [cp::Action::\"cp:doc:read\"],\n  resource\n) when { principal.tenant_id == resource.tenant_id };")
unfolding compile_rbac_to_cedar validate_cedar_ident has_invalid validate_actions
reader_permit = refl

groups_to_permits_lem_example :
    (sorted : List RbacEntry) × (is_sorted sorted ≡ true)
    × Perm sorted (reader ∷ admin ∷ [])
    × (((permits : List NamedPermit) × (groups_to_permits
              (reader ∷ admin ∷ [])
              (codes "cp")
              tenant_config_default
            ≡ ok permits)
          × ArePermits (codes "cp") tenant_config_default sorted permits)
        ⊎ ((error : MaterializeCompileError) × (groups_to_permits
                (reader ∷ admin ∷ [])
                (codes "cp")
                tenant_config_default
              ≡ err error)
            × FirstFailure (codes "cp") tenant_config_default sorted error))
groups_to_permits_lem_example =
    groups_to_permits_lem (reader ∷ admin ∷ []) (codes "cp") tenant_config_default

-- A name with a double quote does not compile, and stops the others.
quoted_fails :
    groups_to_permits
      (record reader { name = codes "a\"b" } ∷ reader ∷ [])
      (codes "cp")
      tenant_config_default
    ≡ err
        (record { name = codes "a\"b"; reason = invalid_ident (codes "role name") (codes "a\"b") })
unfolding groups_to_permits sort_entries put_entry permits_of compile_rbac_to_cedar
    validate_cedar_ident has_invalid
quoted_fails = refl
