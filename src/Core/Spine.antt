-- ===== src/Core/Spine.antt =====
-- crates/core/src/spine.rs: the organizational spine, a single-rooted tree of org units. The
-- `HashMap` of parent edges is an association list in the order of insertion.
pub mod Tree
pub mod Build
pub mod Rebuild
pub mod Path
pub mod Edit
pub mod Tests
use forgeguard.Base.{
  ℕ, Str, String, ◌≡◌, Bool, true, false, not, List, [], ◌∷◌, Option, none, some, codes, length,
  contains, ◌==◌, nat_eq, if◌then◌else◌,
}
use forgeguard.Base.Assoc.{lookup, insert, keys, contains_key}
use forgeguard.Base.Result.{Result, ok, err, ◌>>=◌, ◌>>◌, ensure, ok_or}
use forgeguard.Core.Error.{Error, CoreResult}
use forgeguard.Core.Forest.{Walk, ended, missing, out_of_fuel, climbs, walk_up}
use forgeguard.Core.Segment.{Segment, segment_eq}
use forgeguard.Core.Fgrn.{Fgrn, FgrnKind, org_unit, kind_eq, fgrn_eq}

abbrev pub spine_error : Fgrn → String → Error
spine_error fgrn reason = Error.spine fgrn.raw reason

pub record OrgUnit : Type 0 where
  pub fgrn : Fgrn
  pub parent : Option Fgrn

check_parent : Fgrn → Option Fgrn → CoreResult (Unit {0})
check_parent fgrn none = ok tt
check_parent fgrn (some parent) = do
  ensure (parent.kind == org_unit) (spine_error parent "parent fgrn must have kind orgunit")
  ensure (not (parent == fgrn)) (spine_error fgrn "org unit cannot be its own parent")
  ensure (parent.organization == fgrn.organization)
      (spine_error parent "parent must belong to the same organization")

-- `OrgUnit::try_new`
unfoldable pub org_unit_new : Fgrn → Option Fgrn → CoreResult OrgUnit
unfolding check_parent
org_unit_new fgrn parent = do
  ensure (fgrn.kind == org_unit) (spine_error fgrn "org unit fgrn must have kind orgunit")
  check_parent fgrn parent
  ok (record { fgrn = fgrn; parent = parent })

abbrev pub Units : Type 0
Units = List (Fgrn × Option Fgrn)

pub record Spine : Type 0 where
  pub units : Units
  pub root : Fgrn
  pub organization : Segment

-- The root so far, after one more unit.
claim_root : OrgUnit → Option Fgrn → CoreResult (Option Fgrn)
claim_root unit root = elim unit.parent [
  | some parent ↦ ok root
  | none ↦ elim root [
    | some other ↦ err (spine_error unit.fgrn "spine must have exactly one root")
    | none ↦ ok (some unit.fgrn)
  ]
]

-- The loop of `Spine::try_new` over the units.
collect : Segment → List OrgUnit → Units → Option Fgrn → CoreResult (Units × Option Fgrn)
collect organization [] map root = ok (map, root)
collect organization (unit ∷ units) map root = do
  ensure (not (contains_key map unit.fgrn)) (spine_error unit.fgrn "duplicate org unit")
  ensure (unit.fgrn.organization == organization)
      (spine_error unit.fgrn "all org units must belong to one organization")
  root' ← claim_root unit root
  collect organization units (insert unit.fgrn unit.parent map) root'

-- The loop over `map.values().flatten()`.
check_parents : Units → Units → CoreResult (Unit {0})
check_parents map [] = ok tt
check_parents map ((_, none) ∷ rest) = check_parents map rest
check_parents map ((_, some parent) ∷ rest) = do
  ensure (contains_key map parent) (spine_error parent "unknown parent")
  check_parents map rest

-- The loop over `map.keys()`, which lets every node climb `map.len()` moves.
check_acyclic : Units → Units → CoreResult (Unit {0})
check_acyclic map [] = ok tt
check_acyclic map ((node, _) ∷ rest) = do
  ensure (climbs map (length map) node) (spine_error node "cycle detected")
  check_acyclic map rest

finish : Segment → Units × Option Fgrn → CoreResult Spine
finish organization (map, none) =
    err (Error.spine (codes "(none)") "spine must have exactly one root")
finish organization (map, some root) = do
  check_parents map map
  check_acyclic map map
  ok (record { units = map; root = root; organization = organization })

-- `Spine::try_new`
unfoldable pub try_new : List OrgUnit → CoreResult Spine
unfolding finish collect check_parents check_acyclic claim_root
try_new [] = err (Error.spine (codes "(empty)") "spine must contain at least one org unit")
try_new (first ∷ units) = do
  let organization = first.fgrn.organization
  collected ← collect organization (first ∷ units) [] none
  finish organization collected

unfoldable pub spine_contains : Spine → Fgrn → Bool
spine_contains s fgrn = contains_key s.units fgrn

unfoldable pub parent : Spine → Fgrn → CoreResult (Option Fgrn)
parent s fgrn = ok_or (lookup fgrn s.units) (spine_error fgrn "unknown org unit")

-- How a method ends that climbs the spine: it raises an error, or its loop does not end well.
pub data Fault : Type 0 where
  raised : Error → Fault
  unreachable : Fault
  diverged : Fault

abbrev of_walk : Walk (List Fgrn) → Result Fault (List Fgrn)
of_walk (ended path) = ok path
of_walk missing = err unreachable
of_walk out_of_fuel = err diverged

-- `Spine::path`, root first. The loop has as many rounds as the spine has units.
unfoldable pub path : Spine → Fgrn → Result Fault (List Fgrn)
path s fgrn = do
  ensure (contains_key s.units fgrn) (raised (spine_error fgrn "unknown org unit"))
  of_walk (walk_up s.units (length s.units) fgrn (fgrn ∷ []))

unfoldable pub is_at_or_below : Spine → Fgrn → Fgrn → Result Fault Bool
unfolding path spine_contains
is_at_or_below s node ancestor = do
  found ← path s node
  ensure (spine_contains s ancestor) (raised (spine_error ancestor "unknown org unit"))
  ok (contains found ancestor)

add_under : Spine → Fgrn → Option Fgrn → CoreResult Spine
add_under s fgrn none = err (spine_error fgrn "spine already has a root")
add_under s fgrn (some parent) = do
  ensure (contains_key s.units parent) (spine_error parent "unknown parent")
  ensure (not (contains_key s.units fgrn)) (spine_error fgrn "duplicate org unit")
  ensure (fgrn.organization == s.organization)
      (spine_error fgrn "all org units must belong to one organization")
  ok (record s { units = insert fgrn (some parent) s.units })

unfoldable pub add : Spine → OrgUnit → CoreResult Spine
unfolding add_under
add s unit = add_under s unit.fgrn unit.parent

unfoldable pub reparent : Spine → Fgrn → Fgrn → Result Fault Spine
reparent s node new_parent = do
  ensure (contains_key s.units node) (raised (spine_error node "unknown org unit"))
  ensure (not (node == s.root)) (raised (spine_error node "cannot reparent the root"))
  ensure (contains_key s.units new_parent) (raised (spine_error new_parent "unknown parent"))
  below ← is_at_or_below s new_parent node
  ensure (not below) (raised (spine_error node "reparent would create a cycle"))
  ok (record s { units = insert node (some new_parent) s.units })
