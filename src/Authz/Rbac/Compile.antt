-- ===== src/Authz/Rbac/Compile.antt =====
-- crates/authz-core/src/rbac/mod.rs, `compile_rbac_to_cedar`: the Cedar permit of a role. The messages
-- of its errors are the constructors of `CompileError`; the `Debug` of a text in them is left out.
use forgeguard.Base.{
  ℕ, Str, Bool, true, false, not, ◌&&◌, ◌||◌, List, [], ◌∷◌, ◌++◌, codes, ltb, leb, ◌=ℕ◌,
}
use forgeguard.Base.Result.{Result, ok, err, ◌>>◌, ensure}
use forgeguard.Authz.Rbac.{RbacEntry}

pub record TenantConfig : Type 0 where
  pub enabled : Bool
  pub principal_attribute : Str
  pub resource_attribute : Str

-- `Default for TenantConfig`
abbrev pub tenant_config_default : TenantConfig
tenant_config_default = record {
  enabled = true;
  principal_attribute = codes "tenant_id";
  resource_attribute = codes "tenant_id";
}

pub data CompileError : Type 0 where
  empty_ident : Str → CompileError
  invalid_ident : Str → Str → CompileError
  empty_allow : Str → CompileError

-- A double quote, a backslash or an ASCII control character.
abbrev pub breaks_literal : ℕ → Bool
breaks_literal b = b =ℕ b'"' || (b =ℕ 92 || (ltb b 32 || b =ℕ 127))

-- The test of the characters: the other control characters are those from U+0080 to U+009F, which
-- UTF-8 writes as two bytes.
unfoldable pub has_invalid : Str → Bool
has_invalid [] = false
has_invalid (b ∷ []) = breaks_literal b
has_invalid (b ∷ c ∷ s) =
    breaks_literal b || ((b =ℕ 0xc2 && (leb 0x80 c && leb c 0x9f)) || has_invalid (c ∷ s))

unfoldable pub validate_cedar_ident : Str → Str → Result CompileError (Unit {0})
validate_cedar_ident [] label = err (empty_ident label)
validate_cedar_ident (b ∷ s) label =
    ensure (not (has_invalid (b ∷ s))) (invalid_ident label (b ∷ s))

-- The loop over the actions.
unfoldable pub validate_actions : List Str → Result CompileError (Unit {0})
validate_actions [] = ok tt
validate_actions (action ∷ actions) =
    validate_cedar_ident action (codes "action") >> validate_actions actions

-- "{namespace}::Action::\"{a}\"" for each action, joined by ", ".
abbrev pub action_list : Str → List Str → Str
action_list namespace [] = []
action_list namespace (a ∷ []) = namespace ++ (codes "::Action::\"" ++ (a ++ codes "\""))
action_list namespace (a ∷ b ∷ actions) =
    namespace
    ++ (codes "::Action::\"" ++ (a ++ (codes "\", " ++ action_list namespace (b ∷ actions))))

-- What stands after the actions.
abbrev pub resource_clause : Bool → TenantConfig → Str
resource_clause true tenant =
    codes "  resource\n) when { principal."
    ++ (tenant.principal_attribute
        ++ (codes " == resource." ++ (tenant.resource_attribute ++ codes " };")))
resource_clause false tenant = codes "  resource\n);"

abbrev pub validate_attributes : Bool → TenantConfig → Result CompileError (Unit {0})
validate_attributes true tenant =
    validate_cedar_ident tenant.principal_attribute (codes "tenant principal_attribute")
    >> validate_cedar_ident tenant.resource_attribute (codes "tenant resource_attribute")
validate_attributes false tenant = ok tt

abbrev pub is_empty : List Str → Bool
is_empty [] = true
is_empty (a ∷ actions) = false

-- The text that is written when all is checked.
abbrev pub permit_text : RbacEntry → TenantConfig → Str → Str
permit_text entry tenant namespace =
    codes "permit(\n  principal in "
    ++ (namespace
        ++ (codes "::Group::\""
            ++ (entry.name
                ++ (codes "\",\n  action in ["
                    ++ (action_list namespace entry.allow
                        ++ (codes "],\n"
                            ++ resource_clause (entry.tenant_scoped && tenant.enabled) tenant))))))

unfoldable pub compile_rbac_to_cedar : RbacEntry → TenantConfig → Str → Result CompileError Str
compile_rbac_to_cedar entry tenant namespace = do
  validate_cedar_ident entry.name (codes "role name")
  ensure (not (is_empty entry.allow)) (empty_allow entry.name)
  validate_actions entry.allow
  validate_attributes (entry.tenant_scoped && tenant.enabled) tenant
  ok (permit_text entry tenant namespace)
