-- ===== src/Authz/Query.antt =====
-- crates/authz-core/src/query.rs, context.rs, decision.rs, engine.rs and static_engine.rs: questions to a
-- policy engine and its answers. IP addresses and JSON values are of types that are parameters; so is
-- `DecisionRecord`, which is only passed on.
use forgeguard.Base.{ℕ, Str, Bool, true, false, List, [], Option, none, some, nat_eq, list_eq}
use forgeguard.Base.Assoc.{lookup, insert}
use forgeguard.Base.Result.{ok}
use forgeguard.Core.Action.{
  QualifiedAction, ResourceRef, PrincipalRef, TenantId, GroupName, action_text,
}
use forgeguard.Authz.Error.{AuthzResult}

pub record PolicyContext (Ip Value : Type 0) : Type 0 where
  pub tenant_id : Option TenantId
  pub groups : List GroupName
  pub ip_address : Option Ip
  pub attributes : List (Str × Value)

module _ {Ip Value : Type 0} where
  -- `PolicyContext::new`
  abbrev pub context_new : PolicyContext Ip Value
  context_new = record { tenant_id = none; groups = []; ip_address = none; attributes = [] }

  abbrev pub with_tenant : PolicyContext Ip Value → TenantId → PolicyContext Ip Value
  with_tenant c tenant_id = record c { tenant_id = some tenant_id }

  abbrev pub with_groups : PolicyContext Ip Value → List GroupName → PolicyContext Ip Value
  with_groups c groups = record c { groups = groups }

  abbrev pub with_ip_address : PolicyContext Ip Value → Ip → PolicyContext Ip Value
  with_ip_address c ip = record c { ip_address = some ip }

  abbrev pub with_attribute : PolicyContext Ip Value → Str → Value → PolicyContext Ip Value
  with_attribute c key value = record c { attributes = insert key value c.attributes }

pub record PolicyQuery (Ip Value : Type 0) : Type 0 where
  pub principal : PrincipalRef
  pub action : QualifiedAction
  pub resource : Option ResourceRef
  pub context : PolicyContext Ip Value

pub data DenyReason : Type 0 where
  no_matching_policy : DenyReason
  explicit_deny : (policy_id : Str) → DenyReason
  evaluation_error : Str → DenyReason

pub data PolicyDecision : Type 0 where
  allow : PolicyDecision
  deny : DenyReason → PolicyDecision

-- `PolicyDecision::is_denied`
abbrev pub is_denied : PolicyDecision → Bool
is_denied allow = false
is_denied (deny reason) = true

pub record EvaluatedDecision (Record : Type 0) : Type 0 where
  pub decision : PolicyDecision
  pub decision_record : Option Record

-- `EvaluatedDecision::bare`
abbrev pub bare : {Record : Type 0} → PolicyDecision → EvaluatedDecision Record
bare decision = record { decision = decision; decision_record = none }

pub record CacheStats : Type 0 where
  pub hits : ℕ
  pub misses : ℕ
  pub l2_hits : Option ℕ
  pub l2_misses : Option ℕ
  pub l2_errors : Option ℕ

-- The trait `PolicyEngine`. What an engine awaits is part of its answer.
pub record PolicyEngine (Ip Value Record : Type 0) : Type 0 where
  pub evaluate : PolicyQuery Ip Value → AuthzResult (EvaluatedDecision Record)
  pub cache_stats : Option CacheStats

pub record StaticPolicyEngine : Type 0 where
  pub default_decision : PolicyDecision
  pub overrides : List (Str × PolicyDecision)

unfoldable pub with_override :
    StaticPolicyEngine → QualifiedAction → PolicyDecision → StaticPolicyEngine
with_override e action decision = record e {
  overrides = insert (action_text action) decision e.overrides;
}

module _ {Ip Value Record : Type 0} where
  unfoldable pub evaluate_static :
      StaticPolicyEngine → PolicyQuery Ip Value → AuthzResult (EvaluatedDecision Record)
  evaluate_static e query = ok (
      bare (elim (lookup (action_text query.action) e.overrides) [
        | none ↦ e.default_decision
        | some decision ↦ decision
      ]))
