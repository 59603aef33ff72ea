-- ===== src/Authz/Rbac/Permits.antt =====
-- crates/authz-core/src/rbac/permits.rs: the permits of a list of roles.
pub mod Materialized
use forgeguard.Base.{Str, Bool, List, [], ◌∷◌, ◌++◌, codes, if◌then◌else◌}
use forgeguard.Base.Text.Order.{text_le}
use forgeguard.Base.Result.{Result, ok, err, ◌>>=◌, map_err}
use forgeguard.Authz.Rbac.{RbacEntry}
use forgeguard.Authz.Rbac.Compile.{TenantConfig, CompileError, compile_rbac_to_cedar}

pub record NamedPermit : Type 0 where
  pub name : Str
  pub statement : Str

abbrev pub policy_name_for_group : Str → Str
policy_name_for_group group_name = codes "cp-rbac-" ++ group_name

pub record MaterializeCompileError : Type 0 where
  pub name : Str
  pub reason : CompileError

-- `sort_by_key` by name, which is stable.
unfoldable pub put_entry : RbacEntry → List RbacEntry → List RbacEntry
put_entry e [] = e ∷ []
put_entry e (g ∷ entries) =
    if text_le e.name g.name then e ∷ g ∷ entries else g ∷ put_entry e entries

unfoldable pub sort_entries : List RbacEntry → List RbacEntry
sort_entries [] = []
sort_entries (e ∷ entries) = put_entry e (sort_entries entries)

module _ (namespace : Str) (tenant : TenantConfig) where
  abbrev pub permit_of : RbacEntry → Result MaterializeCompileError NamedPermit
  permit_of entry = do
    statement ←
        map_err (λ reason. record { name = entry.name; reason = reason })
          (compile_rbac_to_cedar entry tenant namespace)
    ok (record { name = policy_name_for_group entry.name; statement = statement })

  -- `collect` into a `Result`, which stops at the first error.
  unfoldable pub permits_of : List RbacEntry → Result MaterializeCompileError (List NamedPermit)
  permits_of [] = ok []
  permits_of (entry ∷ entries) = do
    permit ← permit_of entry
    permits ← permits_of entries
    ok (permit ∷ permits)

unfoldable pub groups_to_permits :
    List RbacEntry → Str → TenantConfig → Result MaterializeCompileError (List NamedPermit)
groups_to_permits entries namespace tenant = permits_of namespace tenant (sort_entries entries)
