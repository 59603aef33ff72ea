-- ===== src/Proxy/Outside.antt =====
-- What the pipeline uses of code that is not in the repository, or that it only passes on: JSON, the
-- router, the hash, the query-string parser, and the types of times, addresses, floating-point
-- numbers and decision records.
use forgeguard.Base.{ℕ, Str, List, Option}
use forgeguard.Authz.Json.{Json}
use forgeguard.Http.Matchit.{Matchit}
use forgeguard.Core.Flag.{ResolvedFlag}

pub record Outside : Type 1 where
  pub json : Json
  pub matchit : Matchit
  pub Time : Type 0
  pub Ip : Type 0
  pub Float : Type 0
  pub DecisionRecord : Type 0
  pub xxh64 : Str → ℕ
  pub form_urlencoded : Str → List (Str × Str)
  pub number : ℕ → json.Value
  pub array : List Str → json.Value
  -- `Value::to_string`
  pub to_text : json.Value → Str
  -- `serde_json::to_string` of the detailed flags.
  pub flags_text : List (Str × ResolvedFlag Float) → Option Str
