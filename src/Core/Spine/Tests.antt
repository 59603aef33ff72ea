-- ===== src/Core/Spine/Tests.antt =====
-- The tree of the source's tests: root over finance, over accounting, and root over engineering.
use forgeguard.Base.{
  distinct, ◌≡◌, ◌≢◌, ◌↔◌, ◌⊎◌, refl, Bool, true, List, [], ◌∷◌, Option, none, some, String, codes,
  ℕ, ◌==◌, if◌then◌else◌, ap,
}
use forgeguard.Base.Assoc.{lookup, insert, contains_key, keys}
use forgeguard.Base.Result.{ok, err}
use forgeguard.Core.Forest.{climbs, walk_up, PathTo, IsBelow}
use forgeguard.Core.Fgrn.{Fgrn, fgrn_eq, fgrn_beq, org_unit_of}
use forgeguard.Core.Spine.{
  OrgUnit, Spine, raised, spine_error, try_new, path, is_at_or_below, add, reparent, org_unit_new,
}
use forgeguard.Core.Spine.Tree.{IsTree}
use forgeguard.Core.Spine.Build.{try_new-IsTree, edges}
use forgeguard.Core.Spine.Rebuild.{listed, try_new-listed}
use forgeguard.Core.Spine.Path.{path-PathTo, is_at_or_below_iff}
use forgeguard.Core.Spine.Edit.{add-IsTree, reparent-IsTree}

-- All that a run of the methods computes with.
unfoldable pub run : Unit {0}
unfolding try_new path is_at_or_below add reparent org_unit_new climbs walk_up lookup insert
    fgrn_beq org_unit_of
run = tt

abbrev pub ou : String → Fgrn
unfolding org_unit_of
ou id = org_unit_of (record { raw = codes "acme" }) (record { raw = codes id })

abbrev pub node : String → Option Fgrn → OrgUnit
node id parent = record { fgrn = ou id; parent = parent }

abbrev pub units : List OrgUnit
units =
    node "root" none
    ∷ node "finance" (some (ou "root"))
    ∷ node "accounting" (some (ou "finance"))
    ∷ node "engineering" (some (ou "root"))
    ∷ []

abbrev pub tree : Spine
tree = record {
  units =
      (ou "root", none)
      ∷ (ou "finance", some (ou "root"))
      ∷ (ou "accounting", some (ou "finance"))
      ∷ (ou "engineering", some (ou "root"))
      ∷ [];
  root = ou "root";
  organization = record { raw = codes "acme" };
}

try_new_units : try_new units ≡ ok tree
unfolding run
try_new_units = refl

path_accounting : path tree (ou "accounting") ≡ ok (ou "root" ∷ ou "finance" ∷ ou "accounting" ∷ [])
unfolding run
path_accounting = refl

try_new-IsTree_example :
    IsTree tree
    × (distinct (keys (edges units)) ≡ true)
    × ((k : Fgrn) → lookup k tree.units ≡ lookup k (edges units))
try_new-IsTree_example = try_new-IsTree units tree try_new_units

pub tree-IsTree : IsTree tree
tree-IsTree = (try_new-IsTree units tree try_new_units).0

pub known_root : contains_key tree.units (ou "root") ≡ true
unfolding run
known_root = refl

pub known :
    (contains_key tree.units (ou "accounting") ≡ true)
    × (contains_key tree.units (ou "engineering") ≡ true)
unfolding run
known = (refl, refl)

path-PathTo_example :
    (found : List Fgrn) × (n : ℕ) × (path tree (ou "accounting") ≡ ok found)
    × PathTo tree.units n (ou "accounting") found []
path-PathTo_example = path-PathTo tree tree-IsTree (ou "accounting") known.0

is_at_or_below_iff_example :
    (b : Bool) × (is_at_or_below tree (ou "accounting") (ou "engineering") ≡ ok b)
    × ((b ≡ true) ↔ IsBelow tree.units (ou "accounting") (ou "engineering"))
is_at_or_below_iff_example =
    is_at_or_below_iff tree tree-IsTree (ou "accounting") (ou "engineering") known.0 known.1

abbrev grown : Spine
grown = record tree { units = insert (ou "audit") (some (ou "finance")) tree.units }

add_audit : add tree (node "audit" (some (ou "finance"))) ≡ ok grown
unfolding run
add_audit = refl

add-IsTree_example :
    IsTree grown
    × ((k : Fgrn)
        → lookup k grown.units
          ≡ (if ou "audit" == k then some (some (ou "finance")) else lookup k tree.units))
add-IsTree_example =
    add-IsTree tree grown (node "audit" (some (ou "finance"))) tree-IsTree add_audit

accounting-ne-root : ou "accounting" ≢ ou "root"
unfolding run
accounting-ne-root e = cc (ap (λ x. fgrn_beq x (ou "root")) e)

reparent-IsTree_example :
    (IsBelow tree.units (ou "engineering") (ou "accounting")
      × (reparent tree (ou "accounting") (ou "engineering")
          ≡ err (raised (spine_error (ou "accounting") "reparent would create a cycle"))))
    ⊎ ((t : Spine) × (reparent tree (ou "accounting") (ou "engineering") ≡ ok t)
        × IsTree t
        × ((k : Fgrn)
            → lookup k t.units ≡ (
                if ou "accounting" == k
                then some (some (ou "engineering"))
                else lookup k tree.units)))
reparent-IsTree_example =
    reparent-IsTree tree (ou "accounting") (ou "engineering") tree-IsTree known.0 known.1
      accounting-ne-root

-- A move below itself, and a cycle in the input.
reparent_cycle :
    reparent tree (ou "finance") (ou "accounting")
    ≡ err (raised (spine_error (ou "finance") "reparent would create a cycle"))
unfolding run
reparent_cycle = refl

try_new-listed_example : try_new (listed tree.units) ≡ ok tree
try_new-listed_example = try_new-listed tree tree-IsTree
