-- ===== src/Core/PrincipalSet.antt =====
-- crates/core/src/principal_set.rs: principal sets and their membership edges. The `BTreeSet` of
-- members is a list without repetition.
pub mod Laws
pub mod Acyclic
mod Tests
use forgeguard.Base.{Bool, true, false, not, ◌&&◌, List, [], ◌∷◌, contains, ◌==◌}
use forgeguard.Base.Sets.{insert_set, remove_set}
use forgeguard.Base.Result.{ok, err, ◌>>=◌, ◌>>◌, ensure}
use forgeguard.Core.Error.{Error, CoreResult}
use forgeguard.Core.Segment.{segment_eq}
use forgeguard.Core.Fgrn.{Fgrn, FgrnKind, org_unit, principal, principal_set, kind_eq, fgrn_eq}

pub record PrincipalSet : Type 0 where
  pub fgrn : Fgrn
  pub anchor : Fgrn
  pub members : List Fgrn

-- `PrincipalSet::try_new`
unfoldable pub set_new : Fgrn → Fgrn → CoreResult PrincipalSet
set_new fgrn anchor = do
  ensure (fgrn.kind == principal_set)
      (Error.spine fgrn.raw "principal set fgrn must have kind principal-set")
  ensure (anchor.kind == org_unit)
      (Error.spine anchor.raw "principal set anchor must be an org unit")
  ensure (anchor.organization == fgrn.organization)
      (Error.spine anchor.raw "anchor must belong to the same organization")
  ok (record { fgrn = fgrn; anchor = anchor; members = [] })

unfoldable pub has_member : PrincipalSet → Fgrn → Bool
has_member set member = contains set.members member

-- The set after the call, with what `add_member` returns: whether the member is new.
unfoldable pub add_member : PrincipalSet → Fgrn → CoreResult (PrincipalSet × Bool)
add_member set member = do
  ensure (not (not (member.kind == principal) && not (member.kind == principal_set)))
      (Error.grant member.raw "member must be a principal or principal-set")
  ensure (not (member == set.fgrn)) (Error.grant member.raw "set cannot be a member of itself")
  ensure (member.organization == set.fgrn.organization)
      (Error.grant member.raw "member must belong to the same organization")
  ok (record set { members = insert_set member set.members }, not (contains set.members member))

unfoldable pub remove_member : PrincipalSet → Fgrn → PrincipalSet × Bool
remove_member set member =
    (record set { members = remove_set member set.members }, contains set.members member)
