-- ===== src/Proxy/Outcome.antt =====
-- crates/proxy-core/src/pipeline_config.rs, pipeline_outcome.rs, enforcement.rs and membership.rs: what
-- the pipeline is set up with, and how it ends.
use forgeguard.Base.{
  ℕ, Str, String, Bool, false, List, [], ◌∷◌, Option, none, codes, nat_eq, list_eq,
}
use forgeguard.Base.Result.{Result}
use forgeguard.Core.Segment.{Segment}
use forgeguard.Core.Action.{UserId, GroupName}
use forgeguard.Core.Flag.{FlagName, FlagDefinition, FlagValue}
use forgeguard.Authn.Identity.{Identity}
use forgeguard.Authz.Query.{PolicyEngine}
use forgeguard.Http.Route.{MatchedRoute, RouteMatcher}
use forgeguard.Http.Public.{PublicRouteMatcher}
use forgeguard.Proxy.Outside.{Outside}

pub data EnforcementMode : Type 0 where
  enforce observe : EnforcementMode

pub data PolicyEffect : Type 0 where
  not_evaluated allowed would_allow would_deny : PolicyEffect

pub data DefaultPolicy : Type 0 where
  passthrough deny : DefaultPolicy

-- `Membership`
pub record Membership : Type 0 where
  pub groups : List GroupName

-- `MembershipResolver::resolve`: an error is an empty value.
abbrev pub MembershipResolver : Type 0
MembershipResolver = UserId → Segment → Result (Unit {0}) (Option Membership)

module _ (o : Outside) where
  pub record PipelineConfig : Type 0 where
    pub route_matcher : RouteMatcher o.matchit
    pub public_route_matcher : PublicRouteMatcher o.matchit
    pub flag_config : List (FlagName × FlagDefinition o.Float)
    pub project_id : Segment
    pub default_policy : DefaultPolicy
    pub debug_mode : Bool
    pub auth_providers : List Str
    pub membership_resolver : Option MembershipResolver

  abbrev pub Caller : Type 0
  Caller = Identity o.Time o.json.Value

  abbrev pub Engine : Type 0
  Engine = PolicyEngine o.Ip o.json.Value o.DecisionRecord

  -- `panicked` is of this model: a phase does not return.
  pub data PipelineOutcome : Type 0 where
    panicked : PipelineOutcome
    health debug : Str → PipelineOutcome
    reject :
        (status : ℕ) (body : Str) (policy_denied : Bool) (decision_record : Option o.DecisionRecord)
        → PipelineOutcome
    forward :
        (identity : Option Caller) (flags : Option (List (Str × FlagValue o.Float)))
        (matched_route : Option MatchedRoute) (decision_record : Option o.DecisionRecord)
        (effect : PolicyEffect)
        → PipelineOutcome

module _ {o : Outside} where
  unfoldable pub reject_json : ℕ → String → PipelineOutcome o
  reject_json status error =
      reject status (o.to_text (o.json.object ((codes "error", o.json.string (codes error)) ∷ [])))
        false none
