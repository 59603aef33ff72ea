-- ===== src/Authz/Store/Slice.antt =====
-- crates/authz-core/src/store/slice.rs: the part of a model that one decision reads.
pub mod Sets
pub mod Fixpoint
use forgeguard.Base.{
  ℕ, zero, suc, Bool, true, false, List, [], ◌∷◌, ◌++◌, Option, none, some, ◌==◌, any, filter,
  length, if◌then◌else◌,
}
use forgeguard.Base.Result.{Result, ok, ◌>>=◌, map_err, ok_or}
use forgeguard.Core.Fgrn.{Fgrn, org_unit, kind_eq, fgrn_eq}
use forgeguard.Core.Spine
use forgeguard.Core.Spine.{Spine, OrgUnit, org_unit_new, path, parent}
use forgeguard.Core.Grant.{Grant, Principal, PromotedResource}
use forgeguard.Core.PrincipalSet.{PrincipalSet, has_member}
use forgeguard.Authz.Error.{Error}
use forgeguard.Authz.Store.{ModelState, principal, promotion}

pub record EntitySlice : Type 0 where
  pub principal : Principal
  pub principal_sets : List PrincipalSet
  pub org_units : List OrgUnit
  pub grants : List Grant
  pub promotion : Option PromotedResource
  pub revision : ℕ

-- How a selection ends without a slice: by an error, or in a panic or an endless loop.
pub data Failure : Type 0 where
  failed : Error → Failure
  broken : Failure

-- `?` on a method of the spine.
abbrev pub of_fault : Spine.Fault → Failure
of_fault (Spine.raised e) = failed (Error.core e)
of_fault Spine.unreachable = broken
of_fault Spine.diverged = broken

-- The inner loop of `transitive_principal_sets`: the selected sets, the members so far, and whether
-- the selection grew.
unfoldable pub select_round :
    List PrincipalSet → List PrincipalSet → List Fgrn → Bool → List PrincipalSet × List Fgrn × Bool
select_round [] selected members grew = (selected, members, grew)
select_round (set ∷ sets) selected members grew =
    if any (λ s. s.fgrn == set.fgrn) selected
    then select_round sets selected members grew
    else if any (has_member set) members
    then select_round sets (selected ++ set ∷ []) (members ++ set.fgrn ∷ []) true
    else select_round sets selected members grew

unfoldable pub select_rounds :
    ℕ → List PrincipalSet → List PrincipalSet → List Fgrn → List PrincipalSet
select_rounds zero sets selected members = selected
select_rounds (suc rounds) sets selected members =
    let (selected', members', grew) = select_round sets selected members false in
    elim grew [ true ↦ select_rounds rounds sets selected' members' | false ↦ selected' ]

unfoldable pub transitive_principal_sets : ModelState → Fgrn → List PrincipalSet
transitive_principal_sets model member =
    select_rounds (suc (length model.sets)) model.sets [] (member ∷ [])

-- The inner loop of `spine_ancestry`, over the path of one anchor.
unfoldable pub add_nodes : Spine → List Fgrn → List OrgUnit → Result Failure (List OrgUnit)
add_nodes spine [] units = ok units
add_nodes spine (node ∷ nodes) units = elim (any (λ (u : OrgUnit). u.fgrn == node) units) [
  | true ↦ add_nodes spine nodes units
  | false ↦ (do
    above ← map_err (λ e. failed (Error.core e)) (parent spine node)
    unit ← map_err (λ e. failed (Error.core e)) (org_unit_new node above)
    add_nodes spine nodes (units ++ unit ∷ []))
]

unfoldable pub spine_ancestry : Spine → List Fgrn → List OrgUnit → Result Failure (List OrgUnit)
spine_ancestry spine [] units = ok units
spine_ancestry spine (anchor ∷ anchors) units = elim (anchor.kind == org_unit) [
  | false ↦ spine_ancestry spine anchors units
  | true ↦ (do
    nodes ← map_err of_fault (path spine anchor)
    units ← add_nodes spine nodes units
    spine_ancestry spine anchors units)
]

abbrev pub anchors_of : Principal → Option PromotedResource → List Fgrn
anchors_of p none = p.anchor ∷ []
anchors_of p (some promoted) = p.anchor ∷ promoted.anchor ∷ []

unfoldable pub select_slice : ModelState → Fgrn → Fgrn → ℕ → Result Failure EntitySlice
select_slice model who resource revision = do
  p ← ok_or (principal model who) (failed (Error.unknown_entity who.raw))
  let promoted = promotion model resource
  units ← spine_ancestry model.spine (anchors_of p promoted) []
  ok (record {
    principal = p;
    principal_sets = transitive_principal_sets model p.fgrn;
    org_units = units;
    grants = filter (λ g. g.resource == resource) model.grants;
    promotion = promoted;
    revision = revision;
  })
