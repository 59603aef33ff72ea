-- ===== src/Core/Delegation.antt =====
-- crates/core/src/delegation.rs: chains of principals that act on behalf of one another, and the
-- verbs that a chain has on a resource.
pub mod Search
pub mod Scope
pub mod Chain
use forgeguard.Base.{
  ℕ, Str, zero, suc, Bool, true, false, not, ◌||◌, List, [], ◌∷◌, ◌++◌, Option, none, some,
  contains, ◌==◌, ◌≡◌, ◌⊎◌, refl, inl, inr, find, filter, all, length, if◌then◌else◌, ltb,
}
use forgeguard.Base.Sets.{to_set, intersection}
use forgeguard.Base.Result.{ok, err, ◌>>=◌, ◌>>◌, ensure}
use forgeguard.Core.Error.{Error, CoreResult}
use forgeguard.Core.Segment.{Segment, segment_eq}
use forgeguard.Core.Verb.{Verb, verb_eq}
use forgeguard.Core.Fgrn.{Fgrn, FgrnKind, principal, principal_set, resource, kind_eq, fgrn_eq}
use forgeguard.Core.Grant.{Grant, no_actions}
use forgeguard.Core.PrincipalSet.{PrincipalSet, has_member}

-- The set of that name, if it is loaded.
abbrev pub find_set : List PrincipalSet → Fgrn → Option PrincipalSet
find_set sets fgrn = find (λ s. s.fgrn == fgrn) sets

-- What a walk returns, with the sets that it has visited, the last one in front.
pub data Visit : Type 0 where
  found passed : List Fgrn → Visit
  out_of_fuel : Visit

pub Visit-cases :
    (r : Visit)
    → ((w : List Fgrn) × (r ≡ found w)) ⊎ ((w : List Fgrn) × (r ≡ passed w)) ⊎ (r ≡ out_of_fuel)
Visit-cases (found w) = inl (w, refl)
Visit-cases (passed w) = inr (inl (w, refl))
Visit-cases out_of_fuel = inr (inr refl)

-- The members that are sets.
abbrev pub set_members : PrincipalSet → List Fgrn
set_members set = filter (λ m. m.kind == principal_set) set.members

-- `any`, with the visited sets that the closure changes.
unfoldable pub any_member : (Fgrn → List Fgrn → Visit) → List Fgrn → List Fgrn → Visit
any_member walk [] visited = passed visited
any_member walk (m ∷ members) visited = elim (walk m visited) [
  | found visited ↦ found visited
  | passed visited ↦ any_member walk members visited
  | out_of_fuel ↦ out_of_fuel
]

-- The inner `walk` of `set_contains`.
unfoldable pub walk : List PrincipalSet → Fgrn → ℕ → Fgrn → List Fgrn → Visit
walk sets who zero set_fgrn visited = out_of_fuel
walk sets who (suc fuel) set_fgrn visited = elim (find_set sets set_fgrn) [
  | none ↦ passed visited
  | some set ↦ elim (contains visited set.fgrn) [
    | true ↦ passed visited
    | false ↦ elim (has_member set who) [
      | true ↦ found (set.fgrn ∷ visited)
      | false ↦ any_member (λ m v. walk sets who fuel m v) (set_members set) (set.fgrn ∷ visited)
    ]
  ]
]

abbrev pub answer : Visit → Option Bool
answer (found visited) = some true
answer (passed visited) = some false
answer out_of_fuel = none

-- `set_contains`: no walk is deeper than there are sets.
unfoldable pub set_contains : List PrincipalSet → Fgrn → Fgrn → Option Bool
set_contains sets set_fgrn who = answer (walk sets who (suc (length sets)) set_fgrn [])

pub record DelegationChain : Type 0 where
  pub links : List Fgrn

-- `links.first().map(ToString::to_string).unwrap_or_default()`
abbrev first_text : List Fgrn → Str
first_text [] = []
first_text (link ∷ links) = link.raw

check_kinds : List Fgrn → CoreResult (Unit {0})
check_kinds [] = ok tt
check_kinds (link ∷ links) = do
  ensure (link.kind == principal) (Error.grant link.raw "delegation link must be a principal")
  check_kinds links

check_organizations : Segment → List Fgrn → CoreResult (Unit {0})
check_organizations org [] = ok tt
check_organizations org (link ∷ links) = do
  ensure (link.organization == org)
      (Error.grant link.raw "delegation links must belong to the same organization")
  check_organizations org links

-- `DelegationChain::try_new`
unfoldable pub chain_new : List Fgrn → CoreResult DelegationChain
unfolding check_kinds check_organizations
chain_new [] = err (Error.grant [] "delegation chain must have at least two links")
chain_new (link ∷ []) = err (Error.grant link.raw "delegation chain must have at least two links")
chain_new (first ∷ second ∷ links) = do
  check_kinds (first ∷ second ∷ links)
  check_organizations first.organization (second ∷ links)
  ok (record { links = first ∷ second ∷ links })

pub record EffectiveScopeQuery : Type 0 where
  pub chain : DelegationChain
  pub resource : Fgrn
  pub grants : List Grant
  pub sets : List PrincipalSet

-- Whether a grant goes to the link, directly or through a set.
unfoldable pub reaches : EffectiveScopeQuery → Fgrn → Grant → Option Bool
reaches query link g = if g.to == link then some true else set_contains query.sets g.to link

-- The verbs of the grants on the resource that reach the link.
unfoldable pub granted : EffectiveScopeQuery → Fgrn → List Grant → Option (List Verb)
granted query link [] = some []
granted query link (g ∷ grants) =
    let rest = granted query link grants in
    if g.resource == query.resource
    then (elim (reaches query link g) [
      | none ↦ none
      | some false ↦ rest
      | some true ↦ elim rest [ none ↦ none | some verbs ↦ some (g.actions ++ verbs) ]
    ])
    else rest

unfoldable pub verbs_held : Fgrn → EffectiveScopeQuery → Option (List Verb)
verbs_held link query = elim (granted query link query.grants) [
  | none ↦ none
  | some verbs ↦ some (to_set verbs)
]

-- What is left after one more link.
abbrev narrowed : Option (List Verb) → List Verb → List Verb
narrowed none held = held
narrowed (some previous) held = intersection previous held

-- The loop of `effective_verbs`, which breaks once nothing is left.
unfoldable pub effective : EffectiveScopeQuery → List Fgrn → Option (List Verb) → Option (List Verb)
effective query [] none = some []
effective query [] (some verbs) = some verbs
effective query (link ∷ links) before = elim (verbs_held link query) [
  | none ↦ none
  | some held ↦
      let next = narrowed before held in
      elim (no_actions next) [ true ↦ some next | false ↦ effective query links (some next) ]
]

-- `none` is a walk that does not end within its fuel.
unfoldable pub effective_verbs : EffectiveScopeQuery → CoreResult (Option (List Verb))
effective_verbs query = do
  ensure (query.resource.kind == resource)
      (Error.grant query.resource.raw "effective scope resource must have kind resource")
  ok (effective query query.chain.links none)
