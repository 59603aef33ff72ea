-- ===== src/Core/Grant/Laws.antt =====
-- What a grant and a share promise.
use forgeguard.Base.{
  ◌∙◌, ◌↔◌, ◌≡◌, ◌⊎◌, ◌≢◌, refl, List, [], ◌∷◌, some, contains, arith, ap, sym, subst,
}
use forgeguard.Base.Sets.{to_set, contains-to_set}
use forgeguard.Base.Result.{ok, err, ◌>>=◌, >>=-eq-ok}
use forgeguard.Core.Error.{CoreResult}
use forgeguard.Core.Segment.{segment_eq, segment_beq_iff}
use forgeguard.Core.Verb.{Verb, verb_eq}
use forgeguard.Core.Fgrn.{Fgrn, principal, principal_set, resource, kind_eq, resource_parts}
use forgeguard.Core.Fgrn.WellFormed.{ValidSegment, ValidId, IsWellFormed}
use forgeguard.Core.Fgrn.Builders.{resource_of-IsWellFormed}
use forgeguard.Core.Grant.{Grant, grant_new, permits, PromotedResource, ShareRequest, share}

-- The terms of a grant edge.
abbrev pub MayGrant : Fgrn → List Verb → Fgrn → Type 0
MayGrant target actions to =
    (actions ≢ [])
    × (target.kind ≡ resource)
    × ((to.kind ≡ principal) ⊎ (to.kind ≡ principal_set))
    × (to.organization ≡ target.organization)

-- A grant is made exactly on these terms, and permits just the actions that were named.
pub grant_new-MayGrant :
    (target : Fgrn) (actions : List Verb) (to : Fgrn)
    → ((g : Grant)
        → grant_new target actions to ≡ ok g
        → MayGrant target actions to
          × (g.resource ≡ target)
          × (g.to ≡ to)
          × ((v : Verb) → permits g v ≡ contains actions v))
      × (MayGrant target actions to
          → grant_new target actions to
            ≡ ok (record { resource = target; actions = to_set actions; to = to }))
unfolding grant_new permits
grant_new-MayGrant target [] to = ((λ g h. cc), (λ h. absurd (h.0 refl)))
grant_new-MayGrant target (a ∷ actions) to = (
  (λ g h.
      let org : to.organization ≡ target.organization =
        ground (arith, segment_beq_iff to.organization target.organization) in
      let result : record { resource = target; actions = to_set (a ∷ actions); to = to } ≡ g =
        ground arith in
      (
        ((λ e. cc), ground arith, ground arith, org),
        ap (λ (x : Grant). x.resource) (sym result),
        ap (λ (x : Grant). x.to) (sym result),
        λ v.
            subst (λ (x : Grant). contains x.actions v ≡ contains (a ∷ actions) v) result
              (contains-to_set (a ∷ actions) v),
      )),
  (λ h. ground (arith, segment_beq_iff to.organization target.organization)),
)

-- The terms of a share.
abbrev pub MayShare : ShareRequest → Type 0
MayShare request =
    (request.actions ≢ [])
    × ((request.to.kind ≡ principal) ⊎ (request.to.kind ≡ principal_set))
    × (request.to.organization ≡ request.target.anchor.organization)

abbrev shared_as : ShareRequest → Fgrn → CoreResult (PromotedResource × Grant)
shared_as request minted = do
  grant ← grant_new minted request.actions request.to
  ok (record { fgrn = minted; anchor = request.target.anchor }, grant)

-- Sharing a resource whose parts are valid never reaches the `unreachable!` of the builder. It
-- succeeds exactly if actions are named and the grantee is a principal or a principal set of the
-- anchor's organization. Then the promoted resource has a well-formed FGRN made of the resource's type and native id,
-- in the organization of its anchor, and keeps the anchor; the grant is on that FGRN, to the
-- requested grantee, and permits just the requested actions.
pub share_lem :
    (request : ShareRequest)
    → ValidSegment request.target.anchor.organization
    → ValidSegment request.target.resource_type
    → ValidId request.native_id
    → (outcome : CoreResult (PromotedResource × Grant)) × (share request ≡ some outcome)
      × (((p : PromotedResource) × (g : Grant) × (outcome ≡ ok (p, g))) ↔ MayShare request)
      × ((p : PromotedResource) (g : Grant)
          → outcome ≡ ok (p, g)
          → IsWellFormed p.fgrn
            × (p.fgrn.organization ≡ request.target.anchor.organization)
            × (resource_parts p.fgrn ≡ some (request.target.resource_type, request.native_id))
            × (p.anchor ≡ request.target.anchor)
            × (g.resource ≡ p.fgrn)
            × (g.to ≡ request.to)
            × ((v : Verb) → permits g v ≡ contains request.actions v))
unfolding share
share_lem request o t n =
    let (f, built, well, org, kind, parts) =
      resource_of-IsWellFormed request.target.anchor.organization request.target.resource_type
        request.native_id o t n in
    (
      shared_as request f,
      rw built refl,
      shared_as_iff f org kind,
      λ p g h. minted f p g well org parts (grant_new f request.actions request.to) refl h,
    )
  where
    shared_as_iff :
        (f : Fgrn)
        → f.organization ≡ request.target.anchor.organization
        → f.kind ≡ resource
        → ((p : PromotedResource) × (g : Grant) × (shared_as request f ≡ ok (p, g)))
          ↔ MayShare request
    shared_as_iff f org kind = (
      (λ (p, g, h).
          let (grant, made, _) = >>=-eq-ok (grant_new f request.actions request.to) _ h in
          let (some_action, _, to_kind, to_org) =
            ((grant_new-MayGrant f request.actions request.to).0 grant made).0 in
          (some_action, to_kind, to_org ∙ org)),
      (λ (some_action, to_kind, to_org).
          let made =
            (grant_new-MayGrant f request.actions request.to).1
              (some_action, kind, to_kind, to_org ∙ sym org) in
          (
            record { fgrn = f; anchor = request.target.anchor },
            record { resource = f; actions = to_set request.actions; to = request.to },
            rw made refl,
          )),
    )

    minted :
        (f : Fgrn) (p : PromotedResource) (g : Grant)
        → IsWellFormed f
        → f.organization ≡ request.target.anchor.organization
        → resource_parts f ≡ some (request.target.resource_type, request.native_id)
        → (r : CoreResult Grant) → grant_new f request.actions request.to ≡ r
        → shared_as request f ≡ ok (p, g)
        → IsWellFormed p.fgrn
          × (p.fgrn.organization ≡ request.target.anchor.organization)
          × (resource_parts p.fgrn ≡ some (request.target.resource_type, request.native_id))
          × (p.anchor ≡ request.target.anchor)
          × (g.resource ≡ p.fgrn)
          × (g.to ≡ request.to)
          × ((v : Verb) → permits g v ≡ contains request.actions v)
    minted f p g well org parts (err _) e h = cc
    minted f p g well org parts (ok grant) e h =
        let (_, on, to, allows) = (grant_new-MayGrant f request.actions request.to).0 grant e in
        let promoted : record { fgrn = f; anchor = request.target.anchor } ≡ p = ground arith in
        let granted : grant ≡ g = ground arith in
        (
          subst (λ (x : PromotedResource). IsWellFormed x.fgrn) promoted well,
          subst (λ (x : PromotedResource). x.fgrn.organization ≡ request.target.anchor.organization)
              promoted org,
          subst
              (λ (x : PromotedResource).
                resource_parts x.fgrn ≡ some (request.target.resource_type, request.native_id))
              promoted parts,
          ap (λ (x : PromotedResource). x.anchor) (sym promoted),
          cc,
          subst (λ (x : Grant). x.to ≡ request.to) granted to,
          subst (λ (x : Grant). (v : Verb) → permits x v ≡ contains request.actions v) granted
              allows,
        )
