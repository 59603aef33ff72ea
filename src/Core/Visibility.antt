-- ===== src/Core/Visibility.antt =====
-- crates/core/src/visibility.rs: what a requester sees by its position in the spine. The boundary of
-- a user is declared by the resource type (crates/core/src/resource_type.rs).
pub mod Laws
use forgeguard.Base.{String, Bool, true, false, ◌==◌, if◌then◌else◌}
use forgeguard.Base.Result.{Result, ok, err, ◌>>=◌, ◌>>◌, ensure}
use forgeguard.Core.Fgrn.{Fgrn, FgrnKind, org_unit, principal, kind_eq, fgrn_eq}
use forgeguard.Core.Spine.{Spine, Fault, raised, spine_error, is_at_or_below}

pub data UserBoundary : Type 0 where
  opaque transparent : UserBoundary

-- The anchor of a resource, with its position: an org unit, the owner with its own anchor, or a set
-- with its anchor.
pub data ResolvedAnchor : Type 0 where
  at_unit : Fgrn → ResolvedAnchor
  at_principal : Fgrn → Fgrn → UserBoundary → ResolvedAnchor
  at_set : Fgrn → ResolvedAnchor

pub record VisibilityQuery : Type 0 where
  pub requester : Fgrn
  pub scope : Fgrn
  pub anchor : ResolvedAnchor
  pub spine : Spine

abbrev pub expect_kind : Fgrn → FgrnKind → String → Result Fault (Unit {0})
expect_kind fgrn kind reason = ensure (fgrn.kind == kind) (raised (spine_error fgrn reason))

abbrev pub is_transparent : UserBoundary → Bool
is_transparent transparent = true
is_transparent opaque = false

-- The owner's boundary, once the owner's anchor is known to be below the scope or not.
abbrev pub behind_boundary : Fgrn → Fgrn → UserBoundary → Bool → Bool
behind_boundary requester owner boundary false = false
behind_boundary requester owner boundary true =
    if requester == owner then true else is_transparent boundary

unfoldable pub visible_at : VisibilityQuery → ResolvedAnchor → Result Fault Bool
visible_at query (at_unit anchor) = do
  expect_kind anchor org_unit "resource anchor must be an org unit"
  is_at_or_below query.spine anchor query.scope
visible_at query (at_set anchored_at) = do
  expect_kind anchored_at org_unit "set anchor must be an org unit"
  is_at_or_below query.spine anchored_at query.scope
visible_at query (at_principal owner anchored_at boundary) = do
  expect_kind owner principal "resource owner must be a principal"
  expect_kind anchored_at org_unit "owner anchor must be an org unit"
  below ← is_at_or_below query.spine anchored_at query.scope
  ok (behind_boundary query.requester owner boundary below)

unfoldable pub subtree_visible : VisibilityQuery → Result Fault Bool
subtree_visible query = do
  expect_kind query.requester principal "visibility requester must be a principal"
  expect_kind query.scope org_unit "visibility scope must be an org unit"
  visible_at query query.anchor
