-- ===== src/Proxy/WellKnown.antt =====
-- crates/proxy-core/src/pipeline.rs: the endpoints that the proxy answers itself, before it
-- authenticates a request.
use forgeguard.Base.{
  ℕ, Str, String, false, ◌&&◌, List, [], ◌∷◌, ◌++◌, Option, none, some, codes, ◌==◌, length, nat_eq,
  list_eq, if◌then◌else◌,
}
use forgeguard.Base.Result.{Result, ok, err}
use forgeguard.Authz.Query.{CacheStats}
use forgeguard.Http.Error.{error_text}
use forgeguard.Http.Debug.{parse_debug_query, evaluate_debug}
use forgeguard.Proxy.Input.{RequestInput}
use forgeguard.Proxy.Outside.{Outside}
use forgeguard.Proxy.Outcome.{
  PipelineConfig, Engine, PipelineOutcome, health, debug, reject, reject_json,
}

abbrev pub health_path : Str
health_path = codes "/.well-known/forgeguard/health"

abbrev pub flags_debug_path : Str
flags_debug_path = codes "/.well-known/forgeguard/flags"

query_text : Option Str → Str
query_text none = []
query_text (some query) = query

module _ (o : Outside) where
  counter : String → Option ℕ → List (Str × o.json.Value)
  counter name none = []
  counter name (some n) = (codes name, o.number n) ∷ []

  cache_fields : Option CacheStats → List (Str × o.json.Value)
  unfolding counter
  cache_fields none = []
  cache_fields (some stats) =
      (codes "cache_hits", o.number stats.hits)
      ∷ (codes "cache_misses", o.number stats.misses)
      ∷ (counter "l2_cache_hits" stats.l2_hits
          ++ (counter "l2_cache_misses" stats.l2_misses
              ++ counter "l2_cache_errors" stats.l2_errors))

module _ {o : Outside} where
  unfoldable pub health_response : PipelineConfig o → Engine o → PipelineOutcome o
  unfolding cache_fields
  health_response config engine = health (
      o.to_text (
        o.json.object (
          (codes "status", o.json.string (codes "ok"))
          ∷ (codes "providers", o.array config.auth_providers)
          ∷ (codes "flags", o.number (length config.flag_config))
          ∷ cache_fields o engine.cache_stats)))

  unfoldable pub debug_response : PipelineConfig o → RequestInput o.Ip → PipelineOutcome o
  unfolding query_text reject_json
  debug_response config input =
      elim (parse_debug_query (o.form_urlencoded (query_text input.query_string))) [
        | err e ↦
            reject 400
              (o.to_text (o.json.object ((codes "error", o.json.string (error_text e)) ∷ []))) false
              none
        | ok query ↦ elim (o.flags_text (evaluate_debug o.xxh64 config.flag_config query)) [
          | some json ↦ debug json
          | none ↦ reject_json 500 "Internal Server Error"
        ]
      ]

  -- Phases 1 and 2: the endpoints that need no authentication.
  unfoldable pub well_known :
      PipelineConfig o → RequestInput o.Ip → Engine o → Result (PipelineOutcome o) (Unit {0})
  unfolding health_response debug_response
  well_known config input engine =
      if input.path == health_path
      then err (health_response config engine)
      else if config.debug_mode && input.path == flags_debug_path
      then err (debug_response config input)
      else ok tt
