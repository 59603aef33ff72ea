-- ===== src/Proxy/Pipeline/Tests.antt =====
-- A request with an API key to a route of a document store. Times, addresses and numbers are natural
-- numbers, and a router is the list of its patterns.
use forgeguard.Base.{
  ◌≡◌, refl, ℕ, Str, true, false, List, [], ◌∷◌, Option, none, some, codes, length, nat_eq, list_eq,
  ◌++◌,
}
use forgeguard.Base.Assoc.{lookup, insert}
use forgeguard.Base.Trim.{trim, eq_ignore_ascii_case, to_ascii_lowercase, to_ascii_uppercase}
use forgeguard.Base.Result.{ok, err}
use forgeguard.Core.Segment.{Segment}
use forgeguard.Core.Action.{user, request_tenant}
use forgeguard.Core.Flag.{flag_text, global, FlagDefinition, FlagValue, bool, boolean}
use forgeguard.Core.Features.{
  flag_enabled, evaluate_flags, evaluate_into, resolve_single_flag, first_override,
}
use forgeguard.Authn.Identity.{
  ApiKeyEntry, static_api_key_resolver, IdentityResolver, resolve_chain, resolve_api_key,
}
use forgeguard.Authz.Json.Texts.{json, null}
use forgeguard.Authz.Query.{allow, bare}
use forgeguard.Http.Method.{get, parse_method}
use forgeguard.Http.Matchit.{Matchit}
use forgeguard.Http.Route.{
  MatchedRoute, RouteValue, match_request, normalize_path, build_matched_route,
}
use forgeguard.Http.Public.{check}
use forgeguard.Http.Credential.{extract_credential, find_header, api_key_text, bearer_token}
use forgeguard.Proxy.Input.{RequestInput}
use forgeguard.Proxy.Outside.{Outside}
use forgeguard.Proxy.Outcome.{allowed, enforce, deny, PipelineConfig, Caller, Engine, forward}
use forgeguard.Proxy.WellKnown.{well_known}
use forgeguard.Proxy.Pipeline.{
  evaluate_pipeline, phases, flags_of, authenticate, enrich, routed, check_gate, decide, effect_of,
  verdict,
}
use forgeguard.Proxy.Pipeline.Passed.{IsCaller, IsMember, IsOpen, IsDecided}
use forgeguard.Proxy.Pipeline.Forwarding.{evaluate_pipeline-forward, match_of_public, route_of}

abbrev seg : Str → Segment
seg s = record { raw = s }

abbrev at_path : {V : Type 0} → Option V → Option (V × List (Str × Str))
at_path none = none
at_path (some v) = some (v, [])

abbrev matchit : Matchit
matchit = record {
  Router = λ V. List (Str × V);
  new = λ V. [];
  insert = λ V router pattern v. ok (insert pattern v router);
  at = λ V router path. at_path (lookup path router);
  alphanumeric = λ s. 0;
}

abbrev outside : Outside
outside = record {
  json = json;
  matchit = matchit;
  Time = ℕ;
  Ip = ℕ;
  Float = ℕ;
  DecisionRecord = ℕ;
  xxh64 = length;
  form_urlencoded = λ s. [];
  number = λ n. null;
  array = λ texts. null;
  to_text = λ v. [];
  flags_text = λ flags. none;
}

abbrev list_docs : RouteValue
list_docs = record {
  action = record {
    namespace = user (seg (codes "docs"));
    action = seg (codes "list");
    entity = seg (codes "doc");
  };
  resource_param = none;
  feature_gate = some (global (seg (codes "beta")));
  resource_entity_type = none;
  default_resource_id = none;
  resource_org_source = request_tenant;
}

abbrev beta_flag : FlagDefinition ℕ
beta_flag = record {
  flag_type = boolean;
  default = bool true;
  enabled = true;
  overrides = [];
  rollout_percentage = none;
  rollout_variant = none;
}

abbrev config : PipelineConfig outside
config = record {
  route_matcher = record { routers = (get, (codes "/docs", list_docs) ∷ []) ∷ []; any_router = [] };
  public_route_matcher = record { routers = []; any_router = [] };
  flag_config = (global (seg (codes "beta")), beta_flag) ∷ [];
  project_id = seg (codes "p1");
  default_policy = deny;
  debug_mode = false;
  auth_providers = [];
  membership_resolver = none;
}

abbrev request : RequestInput ℕ
request = record {
  method = get;
  path = codes "/docs";
  query_string = none;
  headers = (codes "X-Api-Key", codes "k") ∷ [];
  client_ip = none;
}

abbrev entry : ApiKeyEntry
entry = record { user_id = seg (codes "ann"); tenant_id = some (seg (codes "acme")); groups = [] }

abbrev chain : List (IdentityResolver ℕ outside.json.Value)
chain = static_api_key_resolver ((codes "k", entry) ∷ []) ∷ []

abbrev engine : Engine outside
engine = record { evaluate = λ query. ok (bare allow); cache_stats = none }

abbrev ann : Caller outside
ann = record {
  user_id = seg (codes "ann");
  tenant_id = some (seg (codes "acme"));
  groups = [];
  expiry = none;
  resolver = codes "static_api_key";
  extra = none;
  principal_kind = user;
}

abbrev flags : List (Str × FlagValue ℕ)
flags = (codes "beta", bool true) ∷ []

abbrev route : MatchedRoute
unfolding build_matched_route
route = build_matched_route list_docs []

is_forwarded :
    evaluate_pipeline config request chain engine enforce
    ≡ forward (some ann) (some flags) (some route) none allowed
unfolding evaluate_pipeline phases well_known authenticate enrich flags_of routed check_gate decide
    effect_of verdict match_request check parse_method to_ascii_uppercase normalize_path find_header
    extract_credential api_key_text trim eq_ignore_ascii_case to_ascii_lowercase resolve_chain
    resolve_api_key evaluate_flags evaluate_into resolve_single_flag first_override flag_text
    build_matched_route lookup flag_enabled insert
is_forwarded = refl

evaluate_pipeline-forward_example :
    (caller : Option (Caller outside)) × IsCaller outside chain request.headers
      (match_of_public outside config request engine enforce)
      caller
    × IsMember outside request.headers
        (match_of_public outside config request engine enforce)
        none
        caller
        (some ann)
    × (some flags ≡ flags_of config (some ann))
    × (some route ≡ route_of outside config request engine enforce)
    × ((r : MatchedRoute)
        → route_of outside config request engine enforce ≡ some r
        → IsOpen outside (some flags) r)
    × IsDecided outside config request engine enforce
        (match_of_public outside config request engine enforce)
        (some ann)
        (route_of outside config request engine enforce)
        none
        allowed
evaluate_pipeline-forward_example =
    evaluate_pipeline-forward outside config request engine enforce chain is_forwarded

-- Byte 7 of the value is inside a character.
sliced_apart :
    extract_credential ((codes "authorization", codes "abcdef" ++ 0xc3 ∷ 0xa9 ∷ []) ∷ []) ≡ err tt
unfolding extract_credential find_header bearer_token trim eq_ignore_ascii_case to_ascii_lowercase
sliced_apart = refl
