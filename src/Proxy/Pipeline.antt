-- ===== src/Proxy/Pipeline.antt =====
-- crates/proxy-core/src/pipeline.rs: the phases of a request. A phase that ends the request returns its outcome as an
-- error, as the `return` of the code does. The identity chain, the engine and the membership resolver
-- are functions; what they await is part of their answers.
pub mod Passed
mod Tests
pub mod Forwarding
use forgeguard.Base.{
  ℕ, Str, String, Bool, true, false, not, ◌&&◌, List, [], ◌∷◌, ◌++◌, Option, none, some, codes,
  ◌==◌, length, nat_eq, list_eq, if◌then◌else◌,
}
use forgeguard.Base.Result.{Result, ok, err, ◌>>=◌, ◌>>◌}
use forgeguard.Core.Segment
use forgeguard.Core.Segment.{Segment}
use forgeguard.Core.Action.{QualifiedAction, action_text, UserId, GroupName}
use forgeguard.Core.Flag.{FlagName, flag_text, FlagDefinition, FlagValue}
use forgeguard.Core.Features.{evaluate_flags, flag_enabled}
use forgeguard.Authn.Identity.{Credential, Identity, IdentityResolver, resolve_chain}
use forgeguard.Authz.Query.{EvaluatedDecision, is_denied, CacheStats, PolicyEngine}
use forgeguard.Http.Error.{error_text}
use forgeguard.Http.Method.{method_text}
use forgeguard.Http.Route.{MatchedRoute, RouteMatcher, match_request}
use forgeguard.Http.Public.{
  PublicMatch, not_public, anonymous, opportunistic, is_public, PublicRouteMatcher, check,
}
use forgeguard.Http.Credential.{extract_credential, find_header, x_fg_org_id}
use forgeguard.Http.Debug.{parse_debug_query, evaluate_debug}
use forgeguard.Http.Query.{build_query}
use forgeguard.Proxy.Input.{RequestInput}
use forgeguard.Proxy.Outside.{Outside}
use forgeguard.Proxy.Outcome.{
  EnforcementMode, enforce, observe, PolicyEffect, not_evaluated, allowed, would_allow, would_deny,
  DefaultPolicy, passthrough, deny, Membership, MembershipResolver, PipelineConfig, Caller, Engine,
  PipelineOutcome, panicked, health, debug, reject, forward, reject_json,
}
use forgeguard.Proxy.WellKnown.{well_known, health_response, debug_response}

abbrev pub require_credential : PublicMatch → Bool
require_credential not_public = true
require_credential anonymous = false
require_credential opportunistic = false

abbrev pub try_credential : PublicMatch → Bool
try_credential not_public = true
try_credential anonymous = false
try_credential opportunistic = true

abbrev pub gate_enabled : {Float : Type 0} → Option (List (Str × FlagValue Float)) → FlagName → Bool
gate_enabled none gate = false
gate_enabled (some flags) gate = flag_enabled flags (flag_text gate)

module _ (o : Outside) where
  -- The identity as the member of the organization that it is.
  pub enriched : Caller o → Segment → Membership → Caller o
  enriched id org_id membership = record id { tenant_id = some org_id; groups = membership.groups }

  -- What the engine says, with its record: an error of the engine is a denial.
  pub verdict :
      Engine o
      → Segment
      → RequestInput o.Ip
      → MatchedRoute
      → Caller o
      → Bool × Option o.DecisionRecord
  verdict engine project_id input route id =
      elim (engine.evaluate (build_query id route project_id input.client_ip)) [
        | ok evaluated ↦ (not (is_denied evaluated.decision), evaluated.decision_record)
        | err e ↦ (false, none)
      ]

module _ {o : Outside} where
  -- With no identity: the end of the request, if one is required.
  unauthorized : Bool → Result (PipelineOutcome o) (Option (Caller o))
  unfolding reject_json
  unauthorized true = err (reject_json 401 "Unauthorized")
  unauthorized false = ok none

  -- Phases 4 and 5.
  pub authenticate :
      List (IdentityResolver o.Time o.json.Value)
      → RequestInput o.Ip
      → PublicMatch
      → Result (PipelineOutcome o) (Option (Caller o))
  unfolding unauthorized
  authenticate chain input public_match = elim (try_credential public_match) [
    | false ↦ ok none
    | true ↦ elim (extract_credential input.headers) [
      | err _ ↦ err panicked
      | ok none ↦ unauthorized (require_credential public_match)
      | ok (some credential) ↦ elim (resolve_chain chain credential) [
        | ok id ↦ ok (some id)
        | err e ↦ unauthorized (require_credential public_match)
      ]
    ]
  ]

  as_member :
      MembershipResolver → Caller o → Segment → Result (PipelineOutcome o) (Option (Caller o))
  unfolding reject_json enriched
  as_member resolver id org_id = elim (resolver id.user_id org_id) [
    | err e ↦ err (reject_json 500 "Internal Server Error")
    | ok none ↦ err (reject_json 403 "Not a member of this organization")
    | ok (some membership) ↦ ok (some (enriched o id org_id membership))
  ]

  named_org :
      MembershipResolver
      → Bool
      → Caller o
      → Option Str
      → Result (PipelineOutcome o) (Option (Caller o))
  unfolding reject_json as_member
  named_org resolver true id none = err (reject_json 400 "Missing X-Fg-Org-Id header")
  named_org resolver false id none = ok (some id)
  named_org resolver require id (some org_str) = elim (Segment.try_new org_str) [
    | err e ↦ err (reject_json 400 "Invalid X-Fg-Org-Id header")
    | ok org_id ↦ as_member resolver id org_id
  ]

  -- Phase 5b, for an identity that has no tenant yet.
  enrich_caller :
      MembershipResolver
      → Bool
      → RequestInput o.Ip
      → Caller o
      → Option Segment
      → Result (PipelineOutcome o) (Option (Caller o))
  unfolding named_org
  enrich_caller resolver require input id (some tenant) = ok (some id)
  enrich_caller resolver require input id none =
      named_org resolver require id (find_header input.headers x_fg_org_id)

  pub enrich :
      Option MembershipResolver
      → Bool
      → RequestInput o.Ip
      → Option (Caller o)
      → Result (PipelineOutcome o) (Option (Caller o))
  unfolding enrich_caller
  enrich none require input identity = ok identity
  enrich (some resolver) require input none = ok none
  enrich (some resolver) require input (some id) =
      enrich_caller resolver require input id id.tenant_id

  -- Phase 6.
  pub flags_of : PipelineConfig o → Option (Caller o) → Option (List (Str × FlagValue o.Float))
  flags_of config none = none
  flags_of config (some id) =
      some (evaluate_flags o.xxh64 config.flag_config id.tenant_id id.user_id id.groups)

  -- Phase 8.
  pub check_gate :
      Option (List (Str × FlagValue o.Float))
      → Option FlagName
      → Result (PipelineOutcome o) (Unit {0})
  unfolding reject_json
  check_gate flags none = ok tt
  check_gate flags (some gate) = elim (gate_enabled flags gate) [
    | true ↦ ok tt
    | false ↦ err (reject_json 404 "Not Found")
  ]

  forbidden : MatchedRoute → Option o.DecisionRecord → PipelineOutcome o
  forbidden route decision_record =
      reject 403
        (o.to_text (
          o.json.object (
            (codes "error", o.json.string (codes "Forbidden"))
            ∷ (codes "action", o.json.string (action_text route.action))
            ∷ [])))
        true decision_record

  effect_of :
      EnforcementMode
      → MatchedRoute
      → Bool × Option o.DecisionRecord
      → Result (PipelineOutcome o) PolicyEffect
  unfolding forbidden
  effect_of enforce route (true, decision_record) = ok allowed
  effect_of observe route (true, decision_record) = ok would_allow
  effect_of observe route (false, decision_record) = ok would_deny
  effect_of enforce route (false, decision_record) = err (forbidden route decision_record)

  -- Phase 9, for an authenticated request and for another one.
  pub decide :
      PipelineConfig o
      → RequestInput o.Ip
      → Engine o
      → EnforcementMode
      → MatchedRoute
      → Option (Caller o)
      → Result (PipelineOutcome o) (PolicyEffect × Option o.DecisionRecord)
  unfolding effect_of
  decide config input engine mode route none = ok (not_evaluated, none)
  decide config input engine mode route (some id) = do
    effect ← effect_of mode route (verdict o engine config.project_id input route id)
    ok (effect, (verdict o engine config.project_id input route id).1)

  -- Phase 10, for a request that no route matches.
  unmatched :
      PipelineConfig o
      → PublicMatch
      → Option (Caller o)
      → Option (List (Str × FlagValue o.Float))
      → DefaultPolicy
      → PipelineOutcome o
  unmatched config public_match identity flags policy = elim (is_public public_match) [
    | true ↦ forward identity flags none none not_evaluated
    | false ↦ elim policy [
      | passthrough ↦ forward identity flags none none not_evaluated
      | deny ↦
          reject 403
            (o.to_text (
              o.json.object (
                (codes "error", o.json.string (codes "Forbidden"))
                ∷ (codes "reason", o.json.string (codes "no matching route"))
                ∷ [])))
            false none
    ]
  ]

  -- Phases 7 to 10.
  pub routed :
      PipelineConfig o
      → RequestInput o.Ip
      → Engine o
      → EnforcementMode
      → PublicMatch
      → Option (Caller o)
      → Option (List (Str × FlagValue o.Float))
      → Option MatchedRoute
      → Result (PipelineOutcome o) (PipelineOutcome o)
  unfolding unmatched
  routed config input engine mode public_match identity flags none =
      ok (unmatched config public_match identity flags config.default_policy)
  routed config input engine mode public_match identity flags (some route) = do
    check_gate flags route.feature_gate
    decided ← decide config input engine mode route identity
    ok (forward identity flags (some route) decided.1 decided.0)

  abbrev pub outcome_of : Result (PipelineOutcome o) (PipelineOutcome o) → PipelineOutcome o
  outcome_of (ok outcome) = outcome
  outcome_of (err outcome) = outcome

  pub phases :
      PipelineConfig o
      → RequestInput o.Ip
      → List (IdentityResolver o.Time o.json.Value)
      → Engine o
      → EnforcementMode
      → Result (PipelineOutcome o) (PipelineOutcome o)
  unfolding well_known
  phases config input chain engine mode =
      let method = method_text input.method in
      let public_match = check o.matchit config.public_route_matcher method input.path in
      do
        well_known config input engine
        identity ← authenticate chain input public_match
        enriched_identity ←
            enrich config.membership_resolver (require_credential public_match) input identity
        routed config input engine mode public_match enriched_identity
            (flags_of config enriched_identity)
            (match_request o.matchit config.route_matcher method input.path)

  pub evaluate_pipeline :
      PipelineConfig o
      → RequestInput o.Ip
      → List (IdentityResolver o.Time o.json.Value)
      → Engine o
      → EnforcementMode
      → PipelineOutcome o
  evaluate_pipeline config input chain engine mode =
      outcome_of (phases config input chain engine mode)
