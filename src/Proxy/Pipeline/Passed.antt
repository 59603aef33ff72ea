-- ===== src/Proxy/Pipeline/Passed.antt =====
-- What a request has passed when the phases let it go on, said without the phases.
use forgeguard.Base.{◌≡◌, ◌≢◌, not, Str, Bool, true, false, List, Option, none, some}
use forgeguard.Base.Result.{ok, err}
use forgeguard.Core.Segment
use forgeguard.Core.Segment.{Segment}
use forgeguard.Core.Flag.{FlagName, FlagValue, flag_text}
use forgeguard.Core.Features.{flag_enabled}
use forgeguard.Authn.Identity.{Credential, IdentityResolver, resolve_chain}
use forgeguard.Authz.Error.{Error}
use forgeguard.Authz.Query.{EvaluatedDecision, is_denied}
use forgeguard.Http.Route.{MatchedRoute}
use forgeguard.Http.Public.{PublicMatch, not_public, is_public}
use forgeguard.Http.Credential.{extract_credential, find_header, x_fg_org_id}
use forgeguard.Http.Query.{build_query}
use forgeguard.Proxy.Input.{RequestInput}
use forgeguard.Proxy.Outside.{Outside}
use forgeguard.Proxy.Outcome.{
  EnforcementMode, enforce, observe, PolicyEffect, not_evaluated, allowed, would_allow, would_deny,
  passthrough, Membership, MembershipResolver, PipelineConfig, Caller, Engine,
}
use forgeguard.Proxy.Pipeline.{enriched}

module _ (o : Outside) where
  -- The caller is the one that the chain resolves the request's credential to. Only a public route goes
  -- on without a caller, and an anonymous one never has one.
  pub data IsCaller (chain : List (IdentityResolver o.Time o.json.Value))
      (headers : List (Str × Str)) : PublicMatch → Option (Caller o) → Type 0 where
    resolved :
        {public_match : PublicMatch} {id : Caller o} (credential : Credential)
        → public_match ≢ PublicMatch.anonymous
        → extract_credential headers ≡ ok (some credential)
        → resolve_chain chain credential ≡ ok id
        → IsCaller chain headers public_match (some id)
    nobody :
        {public_match : PublicMatch}
        → public_match ≢ not_public
        → IsCaller chain headers public_match none

  -- The caller after the membership phase: a caller without a tenant has become a member of the
  -- organization that the request names, or stays as it is when no resolver is configured, or on a
  -- public route when the request names none.
  pub data IsMember (headers : List (Str × Str)) (public_match : PublicMatch)
      : Option MembershipResolver → Option (Caller o) → Option (Caller o) → Type 0 where
    no_resolver :
        {identity : Option (Caller o)} → IsMember headers public_match none identity identity
    no_caller :
        {resolver : MembershipResolver} → IsMember headers public_match (some resolver) none none
    has_tenant :
        {resolver : MembershipResolver} {id : Caller o} (tenant : Segment)
        → id.tenant_id ≡ some tenant
        → IsMember headers public_match (some resolver) (some id) (some id)
    names_none :
        {resolver : MembershipResolver} {id : Caller o}
        → public_match ≢ not_public
        → find_header headers x_fg_org_id ≡ none
        → IsMember headers public_match (some resolver) (some id) (some id)
    member :
        {resolver : MembershipResolver} {id : Caller o} (text : Str) (org_id : Segment)
        (membership : Membership)
        → find_header headers x_fg_org_id ≡ some text
        → Segment.try_new text ≡ ok org_id
        → resolver id.user_id org_id ≡ ok (some membership)
        → IsMember headers public_match
            (some resolver)
            (some id)
            (some (enriched o id org_id membership))

  -- The gate of the route is a flag that is enabled for the caller.
  pub data IsOpen (flags : Option (List (Str × FlagValue o.Float))) (route : MatchedRoute)
      : Type 0 where
    no_gate : route.feature_gate ≡ none → IsOpen flags route
    enabled :
        (values : List (Str × FlagValue o.Float)) (gate : FlagName)
        → route.feature_gate ≡ some gate
        → flags ≡ some values
        → flag_enabled values (flag_text gate) ≡ true
        → IsOpen flags route

  module _ (config : PipelineConfig o) (input : RequestInput o.Ip) (engine : Engine o)
      (mode : EnforcementMode) where
    -- The engine's answer for the caller on the route: whether it allows the request, and its record.
    pub data Answers (id : Caller o) (route : MatchedRoute)
        : Bool → Option o.DecisionRecord → Type 0 where
      answers :
          (evaluated : EvaluatedDecision o.DecisionRecord)
          → engine.evaluate (build_query id route config.project_id input.client_ip) ≡ ok evaluated
          → Answers id route (not (is_denied evaluated.decision)) evaluated.decision_record
      fails :
          (e : Error)
          → engine.evaluate (build_query id route config.project_id input.client_ip) ≡ err e
          → Answers id route false none

    -- What the engine has said of a request that goes on. In the mode that enforces, an authenticated
    -- request of a route goes on only if the engine allows it.
    pub data IsDecided (public_match : PublicMatch)
        : Option (Caller o)
          → Option MatchedRoute
          → Option o.DecisionRecord
          → PolicyEffect
          → Type 0 where
      no_subject :
          {route : MatchedRoute} → IsDecided public_match none (some route) none not_evaluated
      allows :
          {id : Caller o} {route : MatchedRoute} {decision_record : Option o.DecisionRecord}
          → mode ≡ enforce
          → Answers id route true decision_record
          → IsDecided public_match (some id) (some route) decision_record allowed
      would_pass :
          {id : Caller o} {route : MatchedRoute} {decision_record : Option o.DecisionRecord}
          → mode ≡ observe
          → Answers id route true decision_record
          → IsDecided public_match (some id) (some route) decision_record would_allow
      would_fail :
          {id : Caller o} {route : MatchedRoute} {decision_record : Option o.DecisionRecord}
          → mode ≡ observe
          → Answers id route false decision_record
          → IsDecided public_match (some id) (some route) decision_record would_deny
      on_public :
          {identity : Option (Caller o)}
          → is_public public_match ≡ true
          → IsDecided public_match identity none none not_evaluated
      by_default :
          {identity : Option (Caller o)}
          → config.default_policy ≡ passthrough
          → IsDecided public_match identity none none not_evaluated
