-- ===== src/Http/Query.antt =====
-- crates/http/src/query.rs: the question that a request puts to the policy engine. The types of times
-- and IP addresses are parameters, and an identity's extra claims are JSON.
use forgeguard.Base.{Option, none, some, codes}
use forgeguard.Core.Segment.{Segment}
use forgeguard.Core.Action.{PrincipalKind, PrincipalRef, user_ref, machine_ref, UserId}
use forgeguard.Authn.Identity.{Identity}
use forgeguard.Authz.Query.{
  PolicyContext, context_new, with_tenant, with_groups, with_ip_address, with_attribute,
  PolicyQuery,
}
use forgeguard.Http.Route.{MatchedRoute}

abbrev principal_of : PrincipalKind → UserId → PrincipalRef
principal_of PrincipalKind.user user_id = user_ref user_id
principal_of PrincipalKind.machine user_id = machine_ref user_id

module _ {Ip Value : Type 0} where
  abbrev given {ℓ} :
      {A : Type ℓ}
      → (PolicyContext Ip Value → A → PolicyContext Ip Value)
      → PolicyContext Ip Value
      → Option A
      → PolicyContext Ip Value
  given set c none = c
  given set c (some a) = set c a

  unfoldable pub build_query :
      {Time : Type 0}
      → Identity Time Value
      → MatchedRoute
      → Segment
      → Option Ip
      → PolicyQuery Ip Value
  build_query identity matched_route project_id client_ip =
      let grouped = with_groups context_new identity.groups in
      let tenanted = given with_tenant grouped identity.tenant_id in
      let located = given with_ip_address tenanted client_ip in
      let context = given (λ c. with_attribute c (codes "extra_claims")) located identity.extra in
      record {
        principal = principal_of identity.principal_kind identity.user_id;
        action = matched_route.action;
        resource = matched_route.resource;
        context = context;
      }
