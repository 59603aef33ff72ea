-- ===== src/Core/Visibility/Laws.antt =====
-- Visibility is position below the scope, and the boundary of a user.
use forgeguard.Base.{
  ◌≡◌, ◌↔◌, ◌⊎◌, refl, Bool, true, false, ◌==◌, Bool-cases, ==-eq, inl, inr, arith, ap, ◌∙◌, String,
}
use forgeguard.Base.Assoc.{contains_key}
use forgeguard.Base.Result.{Result, ok, ◌>>=◌, ◌>>◌, ensure}
use forgeguard.Core.Forest.{IsBelow}
use forgeguard.Core.Fgrn.{
  Fgrn, FgrnKind, org_unit, principal, kind_eq, kind_beq_iff, fgrn_eq, fgrn_beq_iff,
}
use forgeguard.Core.Spine.{Fault, raised, spine_error}
use forgeguard.Core.Spine.Tree.{IsTree}
use forgeguard.Core.Spine.Path.{is_at_or_below_iff}
use forgeguard.Core.Visibility.{
  ResolvedAnchor, at_unit, at_principal, at_set, UserBoundary, transparent, opaque, is_transparent,
  VisibilityQuery, behind_boundary, visible_at, subtree_visible, expect_kind,
}

-- The org unit where an anchor stands.
abbrev pub position : ResolvedAnchor → Fgrn
position (at_unit anchor) = anchor
position (at_principal owner anchored_at boundary) = anchored_at
position (at_set anchored_at) = anchored_at

-- The owner of a resource is a principal.
abbrev pub OwnerIsPrincipal : ResolvedAnchor → Type 0
OwnerIsPrincipal (at_principal owner anchored_at boundary) = owner.kind ≡ principal
OwnerIsPrincipal _ = Unit

-- The boundary of an owner stops all but the owner, unless it is transparent.
abbrev pub Passes : Fgrn → ResolvedAnchor → Type 0
Passes requester (at_principal owner anchored_at boundary) =
    (requester ≡ owner) ⊎ (boundary ≡ transparent)
Passes requester _ = Unit

expect_then :
    (fgrn : Fgrn) (kind : FgrnKind) (reason : String) (k : Result Fault Bool)
    → fgrn.kind ≡ kind
    → (expect_kind fgrn kind reason >> k) ≡ k
expect_then fgrn kind reason k h =
    ap (λ b. ensure b (raised (spine_error fgrn reason)) >> k) ((kind_beq_iff fgrn.kind kind).1 h)

-- What the owner's boundary adds to the position.
through :
    (requester owner anchor : Fgrn) (boundary : UserBoundary) (below : Bool) {P : Type 0}
    → ((below ≡ true) ↔ P)
    → ((behind_boundary requester owner boundary below ≡ true)
        ↔ (P × Passes requester (at_principal owner anchor boundary)))
through requester owner anchor boundary false iff = ((λ h. cc), λ h. iff.1 h.0)
through requester owner anchor boundary true iff = elim (Bool-cases (requester == owner)) [
  | inl e ↦ rw e ((λ h. (iff.0 refl, inl (==-eq requester owner e))), λ h. refl)
  | inr n ↦ rw n ((λ h. (iff.0 refl, inr (open_to boundary h))), λ h. closed_to boundary n h.1)
]
  where
    open_to : (boundary : UserBoundary) → is_transparent boundary ≡ true → boundary ≡ transparent
    open_to transparent h = refl
    open_to opaque h = cc

    closed_to :
        (boundary : UserBoundary)
        → (requester == owner) ≡ false
        → (requester ≡ owner) ⊎ (boundary ≡ transparent)
        → is_transparent boundary ≡ true
    closed_to boundary n (inl e) = ground (arith, fgrn_beq_iff requester owner)
    closed_to boundary n (inr e) = rw e refl

answer :
    (query : VisibilityQuery)
    → IsTree query.spine
    → contains_key query.spine.units query.scope ≡ true
    → (anchor : ResolvedAnchor) → (position anchor).kind ≡ org_unit
    → OwnerIsPrincipal anchor
    → contains_key query.spine.units (position anchor) ≡ true
    → (b : Bool) × (visible_at query anchor ≡ ok b)
      × ((b ≡ true) ↔ (
          IsBelow query.spine.units (position anchor) query.scope × Passes query.requester anchor))
unfolding visible_at
answer query tree ks (at_unit anchor) p o kp =
    let (b, run, iff) = is_at_or_below_iff query.spine tree anchor query.scope kp ks in
    (b, expect_then anchor org_unit _ _ p ∙ run, ((λ h. (iff.0 h, tt)), λ h. iff.1 h.0))
answer query tree ks (at_set anchor) p o kp =
    let (b, run, iff) = is_at_or_below_iff query.spine tree anchor query.scope kp ks in
    (b, expect_then anchor org_unit _ _ p ∙ run, ((λ h. (iff.0 h, tt)), λ h. iff.1 h.0))
answer query tree ks (at_principal owner anchor boundary) p o kp =
    let (below, run, iff) = is_at_or_below_iff query.spine tree anchor query.scope kp ks in
    (
      behind_boundary query.requester owner boundary below,
      expect_then owner principal _ _ o
          ∙ expect_then anchor org_unit _ _ p
          ∙ ap (λ r. r >>= λ below. ok (behind_boundary query.requester owner boundary below)) run,
      through query.requester owner anchor boundary below iff,
    )

-- On a spine that is a tree, a query of the right kinds about known org units is answered, and the
-- answer is yes exactly if the anchor stands at or below the scope and the boundary of its owner,
-- if there is one, lets the requester pass.
pub subtree_visible_iff :
    (query : VisibilityQuery)
    → IsTree query.spine
    → query.requester.kind ≡ principal
    → query.scope.kind ≡ org_unit
    → (position query.anchor).kind ≡ org_unit
    → OwnerIsPrincipal query.anchor
    → contains_key query.spine.units query.scope ≡ true
    → contains_key query.spine.units (position query.anchor) ≡ true
    → (b : Bool) × (subtree_visible query ≡ ok b)
      × ((b ≡ true) ↔ (
          IsBelow query.spine.units (position query.anchor) query.scope
          × Passes query.requester query.anchor))
unfolding subtree_visible
subtree_visible_iff query tree r c p o ks kp =
    let (b, run, iff) = answer query tree ks query.anchor p o kp in
    (
      b,
      expect_then query.requester principal _ _ r ∙ expect_then query.scope org_unit _ _ c ∙ run,
      iff,
    )
