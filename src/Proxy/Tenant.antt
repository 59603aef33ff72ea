-- ===== src/Proxy/Tenant.antt =====
-- crates/proxy-core/src/tenant.rs: the organization that a request names.
use forgeguard.Base.{
  ℕ, ◌+◌, Str, List, [], ◌∷◌, Option, none, some, codes, ◌=ℕ◌, ◌==◌, find, nat_eq, list_eq, take,
  if◌then◌else◌,
}
use forgeguard.Base.Text.{split_once}
use forgeguard.Base.Trim.{to_ascii_lowercase}
use forgeguard.Base.Result.{ok, err}
use forgeguard.Core.Segment
use forgeguard.Core.Segment.{Segment}
use forgeguard.Proxy.Input.{RequestInput}

abbrev value_of : Option (Str × Str) → Option Str
value_of none = none
value_of (some (name, value)) = some value

-- The names are compared as they are.
unfoldable pub find_header : List (Str × Str) → Str → Option Str
find_header headers name = value_of (find (λ h. h.0 == name) headers)

-- How many bytes stand before the first `c`.
abbrev position : ℕ → Str → Option ℕ
position c [] = none
position c (b ∷ s) =
    let later = position c s in
    if b =ℕ c then some 0 else elim later [ none ↦ none | some n ↦ some (n + 1) ]

before_colon : Str → Str
before_colon host = elim (split_once b':' host) [ none ↦ host | some (h, port) ↦ h ]

-- `strip_port`
unfoldable pub strip_port : Str → Str
unfolding before_colon
strip_port [] = []
strip_port (b ∷ rest) =
    if b =ℕ b'['
    then elim (position b']' rest) [ some pos ↦ take (pos + 2) (b ∷ rest) | none ↦ b ∷ rest ]
    else before_colon (b ∷ rest)

-- The segment up to a slash, and the path from that slash on.
split_at_slash : Str → Option (Str × Str) → Option (Str × Str)
split_at_slash whole none = some (whole, b'/' ∷ [])
split_at_slash whole (some ([], rest)) = none
split_at_slash whole (some (b ∷ segment, rest)) = some (b ∷ segment, b'/' ∷ rest)

-- `split_first_segment`
unfoldable pub split_first_segment : Str → Option (Str × Str)
unfolding split_at_slash
split_first_segment [] = none
split_first_segment (b ∷ []) = none
split_first_segment (b ∷ c ∷ s) =
    if b =ℕ b'/' then split_at_slash (c ∷ s) (split_once b'/' (c ∷ s)) else none

-- `OrganizationId::new(...).ok()`
abbrev pub organization_id : Str → Option Segment
organization_id s = elim (Segment.try_new s) [ ok id ↦ some id | err e ↦ none ]

-- The built-in extractors, and the chain of several.
pub data TenantExtractor : Type 0 where
  subdomain host path_prefix : TenantExtractor
  header : Str → TenantExtractor

-- `HeaderExtractor::new`
abbrev pub header_extractor : Str → TenantExtractor
header_extractor name = header (to_ascii_lowercase name)

subdomain_of : Str → Option Segment
subdomain_of hostname = elim (split_once b'.' hostname) [
  | none ↦ none
  | some (first_label, rest) ↦ organization_id first_label
]

module _ {Ip : Type 0} where
  unfoldable pub extract : TenantExtractor → RequestInput Ip → Option Segment
  unfolding subdomain_of
  extract subdomain input = elim (find_header input.headers (codes "host")) [
    | none ↦ none
    | some value ↦ subdomain_of (strip_port value)
  ]
  extract host input = elim (find_header input.headers (codes "host")) [
    | none ↦ none
    | some value ↦ organization_id (strip_port value)
  ]
  extract (header name) input = elim (find_header input.headers name) [
    | none ↦ none
    | some value ↦ organization_id value
  ]
  extract path_prefix input = elim (split_first_segment input.path) [
    | none ↦ none
    | some (segment, rest) ↦ organization_id segment
  ]

  -- `TenantExtractorChain::extract`
  unfoldable pub extract_first : List TenantExtractor → RequestInput Ip → Option Segment
  extract_first [] input = none
  extract_first (extractor ∷ extractors) input = elim (extract extractor input) [
    | some id ↦ some id
    | none ↦ extract_first extractors input
  ]

-- `PathPrefixExtractor::stripped_path`
unfoldable pub stripped_path : Str → Option Str
stripped_path path = elim (split_first_segment path) [
  | none ↦ none
  | some (segment, rest) ↦ some rest
]
