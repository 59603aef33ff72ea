-- ===== src/Authn/Identity.antt =====
-- crates/authn-core/src/identity.rs, credential.rs, resolver.rs, chain.rs and static_api_key.rs. An
-- identity's time of expiry and its extra claims are of types that are parameters, chrono's
-- `DateTime<Utc>` and `serde_json::Value`.
pub mod Chain
use forgeguard.Base.{
  ℕ, Str, Bool, true, false, List, [], ◌∷◌, Option, none, some, codes, nat_eq, list_eq,
}
use forgeguard.Base.Assoc.{lookup}
use forgeguard.Base.Result.{ok, err}
use forgeguard.Core.Action.{UserId, TenantId, GroupName, PrincipalKind, user}
use forgeguard.Authn.Error.{Error, AuthnResult}

pub data Credential : Type 0 where
  bearer : Str → Credential
  api_key : Str → Credential
  signed_request :
      (key_id : Str) (timestamp : ℕ) (signature : Str) (trace_id : Str)
      (identity_headers : List (Str × Str))
      → Credential

-- `Credential::type_name`
abbrev pub type_name : Credential → Str
type_name (bearer t) = codes "bearer"
type_name (api_key k) = codes "api-key"
type_name (signed_request k t s i h) = codes "signed-request"

pub record Identity (Time Claims : Type 0) : Type 0 where
  pub user_id : UserId
  pub tenant_id : Option TenantId
  pub groups : List GroupName
  pub expiry : Option Time
  pub resolver : Str
  pub extra : Option Claims
  pub principal_kind : PrincipalKind

-- `is_expired`, with the order of the times as a parameter.
abbrev pub is_expired :
    {Time Claims : Type 0} → (Time → Time → Bool) → Identity Time Claims → Time → Bool
is_expired before identity now = elim identity.expiry [ none ↦ false | some exp ↦ before exp now ]

-- The trait `IdentityResolver`. What a resolver awaits is part of its answer.
pub record IdentityResolver (Time Claims : Type 0) : Type 0 where
  pub name : Str
  pub can_resolve : Credential → Bool
  pub resolve : Credential → AuthnResult (Identity Time Claims)

module _ {Time Claims : Type 0} where
  -- `IdentityChain::resolve`
  unfoldable pub resolve_chain :
      List (IdentityResolver Time Claims) → Credential → AuthnResult (Identity Time Claims)
  resolve_chain [] credential = err (Error.no_resolver (type_name credential))
  resolve_chain (resolver ∷ resolvers) credential = elim (resolver.can_resolve credential) [
    | false ↦ resolve_chain resolvers credential
    | true ↦ resolver.resolve credential
  ]

pub record ApiKeyEntry : Type 0 where
  pub user_id : UserId
  pub tenant_id : Option TenantId
  pub groups : List GroupName

abbrev pub can_resolve_api_key : Credential → Bool
can_resolve_api_key (api_key k) = true
can_resolve_api_key credential = false

module _ {Time Claims : Type 0} where
  -- `StaticApiKeyResolver::resolve`
  unfoldable pub resolve_api_key :
      List (Str × ApiKeyEntry) → Credential → AuthnResult (Identity Time Claims)
  resolve_api_key keys (api_key key) = elim (lookup key keys) [
    | some entry ↦ ok (record {
      user_id = entry.user_id;
      tenant_id = entry.tenant_id;
      groups = entry.groups;
      expiry = none;
      resolver = codes "static_api_key";
      extra = none;
      principal_kind = user;
    })
    | none ↦ err (Error.invalid_credential (codes "unknown API key"))
  ]
  resolve_api_key keys credential =
      err (Error.invalid_credential (codes "expected ApiKey credential"))

  abbrev pub static_api_key_resolver : List (Str × ApiKeyEntry) → IdentityResolver Time Claims
  unfolding resolve_api_key
  static_api_key_resolver keys = record {
    name = codes "static_api_key";
    can_resolve = can_resolve_api_key;
    resolve = resolve_api_key keys;
  }
