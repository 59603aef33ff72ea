-- ===== src/Http/Route.antt =====
-- crates/http/src/route.rs: from a method and a path to an action and a resource.
use forgeguard.Base.{
  ℕ, zero, suc, Str, true, false, ◌&&◌, List, [], ◌∷◌, ◌++◌, Option, none, some, codes, ltb, ◌=ℕ◌,
  ◌==◌, length, nat_eq, list_eq, if◌then◌else◌, take, ◌-◌,
}
use forgeguard.Base.Text.{ends_with}
use forgeguard.Base.Assoc.{lookup, insert}
use forgeguard.Base.Result.{ok, err, ◌>>=◌, map_err}
use forgeguard.Core.Segment
use forgeguard.Core.Segment.{Segment}
use forgeguard.Core.Action.{
  QualifiedAction, ResourceOrgSource, own_id, request_tenant, ResourceRef, from_route,
  from_route_with_entity_type, scoped_by_own_id,
}
use forgeguard.Core.Flag.{FlagName}
use forgeguard.Http.Error.{Error, HttpResult}
use forgeguard.Http.Method.{HttpMethod, any, method_text, method_eq, parse_method}
use forgeguard.Http.Matchit.{Matchit}

pub record RouteMapping : Type 0 where
  pub method : HttpMethod
  pub path_pattern : Str
  pub action : QualifiedAction
  pub resource_param : Option Str
  pub feature_gate : Option FlagName
  pub resource_entity_type : Option Str
  pub default_resource_id : Option Segment
  pub resource_org_source : ResourceOrgSource

-- `RouteMapping::new`
abbrev pub mapping_new :
    HttpMethod → Str → QualifiedAction → Option Str → Option FlagName → RouteMapping
mapping_new method path_pattern action resource_param feature_gate = record {
  method = method;
  path_pattern = path_pattern;
  action = action;
  resource_param = resource_param;
  feature_gate = feature_gate;
  resource_entity_type = none;
  default_resource_id = none;
  resource_org_source = request_tenant;
}

pub record MatchedRoute : Type 0 where
  pub action : QualifiedAction
  pub resource : Option ResourceRef
  pub path_params : List (Str × Str)
  pub feature_gate : Option FlagName

pub record RouteValue : Type 0 where
  pub action : QualifiedAction
  pub resource_param : Option Str
  pub feature_gate : Option FlagName
  pub resource_entity_type : Option Str
  pub default_resource_id : Option Segment
  pub resource_org_source : ResourceOrgSource

unfoldable pub normalize_path : Str → Str
normalize_path path =
    if ltb 1 (length path) && ends_with b'/' path then take (length path - 1) path else path

-- A colon with no name after it is literal.
abbrev braced : Str → Str → Str
braced [] rest = b':' ∷ rest
braced (b ∷ name) rest = b'{' ∷ ((b ∷ name) ++ b'}' ∷ rest)

module _ (alphanumeric : Str → ℕ) where
  name_bytes : Str → ℕ
  name_bytes [] = 0
  name_bytes (b ∷ s) = if b =ℕ b'_' then 1 else alphanumeric (b ∷ s)

  -- Between names, and in a name, of whose last character some bytes are left.
  pub data PatternMode : Type 0 where
    literal : PatternMode
    in_name : ℕ → Str → PatternMode

  pattern_from : PatternMode → Str → Str
  unfolding name_bytes
  pattern_from literal [] = []
  pattern_from literal (b ∷ s) = elim (b =ℕ b':') [
    | true ↦ pattern_from (in_name 0 []) s
    | false ↦ b ∷ pattern_from literal s
  ]
  pattern_from (in_name left name) [] = braced name []
  pattern_from (in_name (suc left) name) (b ∷ s) = pattern_from (in_name left (name ++ b ∷ [])) s
  pattern_from (in_name zero name) (b ∷ s) = elim (name_bytes (b ∷ s)) [
    | suc left ↦ pattern_from (in_name left (name ++ b ∷ [])) s
    | zero ↦ braced name (elim (b =ℕ b':') [
      | true ↦ pattern_from (in_name 0 []) s
      | false ↦ b ∷ pattern_from literal s
    ])
  ]

  unfoldable pub normalize_pattern : Str → Str
  unfolding pattern_from
  normalize_pattern pattern = pattern_from literal pattern

-- `ResourceId::parse(...).ok()` of the path's parameter.
abbrev parsed_id : Option Str → Option Segment
parsed_id none = none
parsed_id (some s) = elim (Segment.try_new s) [ ok id ↦ some id | err e ↦ none ]

abbrev param_id : Option Str → List (Str × Str) → Option Segment
param_id none params = none
param_id (some name) params = parsed_id (lookup name params)

abbrev or_else : Option Segment → Option Segment → Option Segment
or_else (some id) default = some id
or_else none default = default

abbrev typed_resource : QualifiedAction → Option Str → Segment → ResourceRef
typed_resource action (some entity_type) id = from_route_with_entity_type action id entity_type
typed_resource action none id = from_route action id

abbrev scoped_resource : ResourceOrgSource → ResourceRef → ResourceRef
scoped_resource own_id base = scoped_by_own_id base
scoped_resource request_tenant base = base

abbrev resource_of_route : RouteValue → Option Segment → Option ResourceRef
resource_of_route value none = none
resource_of_route value (some id) = some (
    scoped_resource value.resource_org_source
      (typed_resource value.action value.resource_entity_type id))

unfoldable pub build_matched_route : RouteValue → List (Str × Str) → MatchedRoute
build_matched_route value params = record {
  action = value.action;
  resource =
      resource_of_route value
        (or_else (param_id value.resource_param params) value.default_resource_id);
  path_params = params;
  feature_gate = value.feature_gate;
}

module _ (matchit : Matchit) where
  pub record RouteMatcher : Type 0 where
    pub routers : List (HttpMethod × matchit.Router RouteValue)
    pub any_router : matchit.Router RouteValue

  -- A method's router, made where there is none yet.
  abbrev pub router_or_new :
      {V : Type 0} → HttpMethod → List (HttpMethod × matchit.Router V) → matchit.Router V
  router_or_new {V} method routers = elim (lookup method routers) [
    | none ↦ matchit.new V
    | some r ↦ r
  ]

  abbrev pub insert_error : Str → HttpMethod → Str → Str → Error
  insert_error what method pattern e = Error.config (
      codes "failed to insert "
      ++ (what
          ++ (codes " " ++ (method_text method ++ (codes " " ++ (pattern ++ (codes ": " ++ e)))))))

  -- The loop of `RouteMatcher::new`, with the pattern that is inserted.
  pub insert_route : RouteMatcher → RouteMapping → Str → RouteValue → HttpResult RouteMatcher
  insert_route m route pattern value = elim (route.method == any) [
    | true ↦ (do
      router ←
          map_err (insert_error (codes "route") any route.path_pattern)
            (matchit.insert RouteValue m.any_router pattern value)
      ok (record m { any_router = router }))
    | false ↦ (do
      router ←
          map_err (insert_error (codes "route") route.method route.path_pattern)
            (matchit.insert RouteValue (router_or_new route.method m.routers) pattern value)
      ok (record m { routers = insert route.method router m.routers }))
  ]

  pub insert_routes : RouteMatcher → List RouteMapping → HttpResult RouteMatcher
  unfolding insert_route
  insert_routes m [] = ok m
  insert_routes m (route ∷ routes) = do
    next ←
        insert_route m route
          (normalize_pattern matchit.alphanumeric (normalize_path route.path_pattern))
          (record {
            action = route.action;
            resource_param = route.resource_param;
            feature_gate = route.feature_gate;
            resource_entity_type = route.resource_entity_type;
            default_resource_id = route.default_resource_id;
            resource_org_source = route.resource_org_source;
          })
    insert_routes next routes

  -- `RouteMatcher::new`
  unfoldable pub route_matcher_new : List RouteMapping → HttpResult RouteMatcher
  unfolding insert_routes
  route_matcher_new routes =
      insert_routes (record { routers = []; any_router = matchit.new RouteValue }) routes

  -- At the method's own router, then at the one for any method.
  abbrev pub at_routers :
      {V : Type 0}
      → List (HttpMethod × matchit.Router V)
      → matchit.Router V
      → HttpMethod
      → Str
      → Option (V × List (Str × Str))
  at_routers {V} routers any_router method path =
      let own : Option (V × List (Str × Str)) = elim (lookup method routers) [
        | none ↦ none
        | some router ↦ matchit.at V router path
      ] in
      elim own [ some found ↦ some found | none ↦ matchit.at V any_router path ]

  unfoldable pub match_request : RouteMatcher → Str → Str → Option MatchedRoute
  match_request m method path = elim (parse_method method) [
    | err e ↦ none
    | ok parsed ↦ elim (at_routers m.routers m.any_router parsed (normalize_path path)) [
      | none ↦ none
      | some (value, params) ↦ some (build_matched_route value params)
    ]
  ]
