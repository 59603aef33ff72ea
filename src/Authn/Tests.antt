-- ===== src/Authn/Tests.antt =====
-- Credentials and signed requests on small inputs.
use forgeguard.Base.{◌≡◌, ◌⊎◌, refl, ℕ, Str, true, List, [], ◌∷◌, ◌++◌, none, codes, arith}
use forgeguard.Base.Result.{err}
use forgeguard.Authn.Error.{Error}
use forgeguard.Authn.Identity.{
  api_key, type_name, IdentityResolver, resolve_chain, ApiKeyEntry, static_api_key_resolver,
}
use forgeguard.Authn.Identity.Chain.{Declines, resolve_chain_lem}
use mathlib.Core.List.{Perm}
use forgeguard.Authn.Signing.{canonical_payload, sort_headers, put_header}
use forgeguard.Authn.Signing.Framing.{canonical_payload_inj}

abbrev entry : ApiKeyEntry
entry = record { user_id = record { raw = codes "ann" }; tenant_id = none; groups = [] }

abbrev keys : List (IdentityResolver ℕ Str)
keys = static_api_key_resolver ((codes "k", entry) ∷ []) ∷ []

resolve_chain_lem_example :
    ((resolver : IdentityResolver ℕ Str) × (before : List (IdentityResolver ℕ Str)) × (after : List
        (IdentityResolver ℕ Str))
      × (keys ≡ before ++ resolver ∷ after)
      × Declines (api_key (codes "k")) before
      × (resolver.can_resolve (api_key (codes "k")) ≡ true)
      × (resolve_chain keys (api_key (codes "k")) ≡ resolver.resolve (api_key (codes "k"))))
    ⊎ (Declines (api_key (codes "k")) keys
        × (resolve_chain keys (api_key (codes "k"))
            ≡ err (Error.no_resolver (type_name (api_key (codes "k"))))))
resolve_chain_lem_example = resolve_chain_lem (api_key (codes "k")) keys

abbrev headers : List (Str × Str)
headers = (codes "x-fg-user-id", codes "ann") ∷ (codes "x-fg-org-id", codes "acme") ∷ []

abbrev sorted : List (Str × Str)
sorted = (codes "x-fg-org-id", codes "acme") ∷ (codes "x-fg-user-id", codes "ann") ∷ []

-- The order in which the headers come does not matter.
sorted_first :
    canonical_payload (codes "t1") 1700000000 headers
    ≡ canonical_payload (codes "t1") 1700000000 sorted
unfolding canonical_payload sort_headers put_header
sorted_first = refl

canonical_payload_inj_example :
    (codes "t1" ≡ codes "t1") × (◌≡◌ {A = ℕ} 1700000000 1700000000) × Perm headers sorted
canonical_payload_inj_example =
    canonical_payload_inj (codes "t1") (codes "t1") 1700000000 1700000000 headers sorted refl refl
      (omega arith) (omega arith) ((refl, refl), ((refl, refl), tt))
      ((refl, refl), ((refl, refl), tt)) sorted_first
