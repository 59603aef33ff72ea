-- ===== src/Http/Public.antt =====
-- crates/http/src/public.rs: the routes that need no authentication.
use forgeguard.Base.{Str, Bool, true, false, List, [], ◌∷◌, none, some, codes, ◌==◌}
use forgeguard.Base.Assoc.{insert}
use forgeguard.Base.Result.{ok, err, ◌>>=◌, map_err}
use forgeguard.Http.Error.{HttpResult}
use forgeguard.Http.Method.{HttpMethod, any, method_eq, parse_method}
use forgeguard.Http.Matchit.{Matchit}
use forgeguard.Http.Route.{
  normalize_path, normalize_pattern, router_or_new, insert_error, at_routers,
}

pub data PublicAuthMode : Type 0 where
  anonymous opportunistic : PublicAuthMode

pub record PublicRoute : Type 0 where
  pub method : HttpMethod
  pub path_pattern : Str
  pub auth_mode : PublicAuthMode

pub data PublicMatch : Type 0 where
  not_public anonymous opportunistic : PublicMatch

abbrev pub is_public : PublicMatch → Bool
is_public PublicMatch.not_public = false
is_public PublicMatch.anonymous = true
is_public PublicMatch.opportunistic = true

abbrev pub match_of : PublicAuthMode → PublicMatch
match_of PublicAuthMode.anonymous = PublicMatch.anonymous
match_of PublicAuthMode.opportunistic = PublicMatch.opportunistic

module _ (matchit : Matchit) where
  pub record PublicRouteMatcher : Type 0 where
    pub routers : List (HttpMethod × matchit.Router PublicAuthMode)
    pub any_router : matchit.Router PublicAuthMode

  insert_public : PublicRouteMatcher → PublicRoute → Str → HttpResult PublicRouteMatcher
  insert_public m route pattern = elim (route.method == any) [
    | true ↦ (do
      router ←
          map_err (insert_error matchit (codes "public route") any route.path_pattern)
            (matchit.insert PublicAuthMode m.any_router pattern route.auth_mode)
      ok (record m { any_router = router }))
    | false ↦ (do
      router ←
          map_err (insert_error matchit (codes "public route") route.method route.path_pattern) (
            matchit.insert PublicAuthMode (router_or_new matchit route.method m.routers) pattern
              route.auth_mode)
      ok (record m { routers = insert route.method router m.routers }))
  ]

  insert_publics : PublicRouteMatcher → List PublicRoute → HttpResult PublicRouteMatcher
  unfolding insert_public
  insert_publics m [] = ok m
  insert_publics m (route ∷ routes) = do
    next ←
        insert_public m route
          (normalize_pattern matchit.alphanumeric (normalize_path route.path_pattern))
    insert_publics next routes

  -- `PublicRouteMatcher::new`
  unfoldable pub public_matcher_new : List PublicRoute → HttpResult PublicRouteMatcher
  unfolding insert_publics
  public_matcher_new routes =
      insert_publics (record { routers = []; any_router = matchit.new PublicAuthMode }) routes

  unfoldable pub check : PublicRouteMatcher → Str → Str → PublicMatch
  check m method path = elim (parse_method method) [
    | err e ↦ PublicMatch.not_public
    | ok parsed ↦ elim (at_routers matchit m.routers m.any_router parsed (normalize_path path)) [
      | none ↦ PublicMatch.not_public
      | some (mode, params) ↦ match_of mode
    ]
  ]
