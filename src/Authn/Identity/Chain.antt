-- ===== src/Authn/Identity/Chain.antt =====
-- Which resolver owns a credential.
use forgeguard.Base.{◌≡◌, ◌⊎◌, refl, ap, true, not, List, [], ◌∷◌, ◌++◌, all, Bool-cases, inl, inr}
use forgeguard.Base.Result.{err}
use forgeguard.Authn.Error.{Error}
use forgeguard.Authn.Identity.{Credential, type_name, IdentityResolver, resolve_chain}

module _ {Time Claims : Type 0} (credential : Credential) where
  abbrev pub Declines : List (IdentityResolver Time Claims) → Type 0
  Declines resolvers = all (λ r. not (r.can_resolve credential)) resolvers ≡ true

  -- The first resolver that can resolve the credential owns the outcome, success or failure: no later
  -- one is asked. With no such resolver, the error names the type of the credential.
  pub resolve_chain_lem :
      (resolvers : List (IdentityResolver Time Claims))
      → ((resolver : IdentityResolver Time Claims) × (before : List (IdentityResolver Time Claims))
          × (after : List (IdentityResolver Time Claims)) × (resolvers ≡ before ++ resolver ∷ after)
          × Declines before
          × (resolver.can_resolve credential ≡ true)
          × (resolve_chain resolvers credential ≡ resolver.resolve credential))
        ⊎ (Declines resolvers
            × (resolve_chain resolvers credential ≡ err (Error.no_resolver (type_name credential))))
  unfolding resolve_chain
  resolve_chain_lem [] = inr (refl, refl)
  resolve_chain_lem (r ∷ resolvers) = elim (Bool-cases (r.can_resolve credential)) [
    | inl y ↦ inl (r, [], resolvers, refl, refl, y, rw (y, resolve_chain) refl)
    | inr n ↦ elim (resolve_chain_lem resolvers) [
      | inl (owner, before, after, same, decline, y, e) ↦
          inl (
            owner,
            r ∷ before,
            after,
            ap (λ l. r ∷ l) same,
            rw n decline,
            y,
            rw (n, resolve_chain) e,
          )
      | inr (decline, e) ↦ inr (rw n decline, rw (n, resolve_chain) e)
    ]
  ]
