-- ===== src/Core/Grant.antt =====
-- crates/core/src/grant.rs, principal.rs, anchored_resource.rs and promotion.rs: grant edges,
-- principals, and the sharing that promotes a resource.
pub mod Laws
use forgeguard.Base.{
  Str, String, ◌≡◌, Bool, true, false, not, ◌&&◌, ◌||◌, List, [], ◌∷◌, Option, none, some, ◌==◌,
  contains,
}
use forgeguard.Base.Sets.{to_set}
use forgeguard.Base.Result.{Result, ok, err, ◌>>=◌, ◌>>◌, ensure}
use forgeguard.Core.Error.{Error, CoreResult}
use forgeguard.Core.Segment.{Segment, segment_eq}
use forgeguard.Core.NativeId.{NativeId}
use forgeguard.Core.Verb.{Verb, verb_eq}
use forgeguard.Core.Fgrn.{
  Fgrn, FgrnKind, org_unit, principal, principal_set, resource, kind_eq, fgrn_eq, resource_of,
}

pub record Grant : Type 0 where
  pub resource : Fgrn
  pub actions : List Verb
  pub to : Fgrn

abbrev pub no_actions : List Verb → Bool
no_actions [] = true
no_actions (_ ∷ _) = false

-- `Grant::try_new`
unfoldable pub grant_new : Fgrn → List Verb → Fgrn → CoreResult Grant
grant_new target actions to = do
  ensure (not (no_actions actions)) (Error.grant target.raw "grant must carry at least one action")
  ensure (target.kind == resource) (Error.grant target.raw "grant resource must have kind resource")
  ensure (to.kind == principal || to.kind == principal_set)
      (Error.grant to.raw "grantee must be a principal or principal-set")
  ensure (to.organization == target.organization)
      (Error.grant to.raw "grantee must belong to the same organization")
  ok (record { resource = target; actions = to_set actions; to = to })

unfoldable pub permits : Grant → Verb → Bool
permits g verb = contains g.actions verb

pub data PrincipalKind : Type 0 where
  human service agent : PrincipalKind

pub record Principal : Type 0 where
  pub fgrn : Fgrn
  pub kind : PrincipalKind
  pub anchor : Fgrn

-- `Principal::try_new`
unfoldable pub principal_new : Fgrn → PrincipalKind → Fgrn → CoreResult Principal
principal_new fgrn kind anchor = do
  ensure (fgrn.kind == principal) (Error.spine fgrn.raw "principal fgrn must have kind principal")
  ensure (anchor.kind == org_unit) (Error.spine anchor.raw "principal anchor must be an org unit")
  ensure (anchor.organization == fgrn.organization)
      (Error.spine anchor.raw "anchor must belong to the same organization")
  ok (record { fgrn = fgrn; kind = kind; anchor = anchor })

pub record AnchoredResource : Type 0 where
  pub resource_type : Segment
  pub anchor : Fgrn

anchored : Segment → Fgrn → FgrnKind → CoreResult AnchoredResource
anchored resource_type anchor resource =
    err (Error.spine anchor.raw "resource anchor must be an org unit, principal, or principal-set")
anchored resource_type anchor _ = ok (record { resource_type = resource_type; anchor = anchor })

-- `AnchoredResource::try_new`
unfoldable pub anchored_resource_new : Segment → Fgrn → CoreResult AnchoredResource
unfolding anchored
anchored_resource_new resource_type anchor = anchored resource_type anchor anchor.kind

pub record PromotedResource : Type 0 where
  pub fgrn : Fgrn
  pub anchor : Fgrn

pub record ShareRequest : Type 0 where
  pub target : AnchoredResource
  pub native_id : NativeId
  pub to : Fgrn
  pub actions : List Verb

share_minted : ShareRequest → Option Fgrn → Option (CoreResult (PromotedResource × Grant))
share_minted request none = none
share_minted request (some minted) = some (do
  grant ← grant_new minted request.actions request.to
  ok (record { fgrn = minted; anchor = request.target.anchor }, grant))

-- `share`; `none` is the `unreachable!` of `Fgrn::resource`.
unfoldable pub share : ShareRequest → Option (CoreResult (PromotedResource × Grant))
unfolding share_minted
share request =
    share_minted request (
      resource_of request.target.anchor.organization request.target.resource_type request.native_id)
