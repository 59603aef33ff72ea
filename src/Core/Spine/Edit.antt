-- ===== src/Core/Spine/Edit.antt =====
-- `add` and `reparent` keep a spine a tree.
use forgeguard.Base.{
  ◌≡◌, refl, subst, Option, true, false, none, some, ◌==◌, arith, inl, inr, Bool-cases, ◌⊎◌, ◌≢◌,
  if◌then◌else◌,
}
use forgeguard.Base.Assoc.{
  lookup, insert, contains_key, lookup-insert, contains_key-insert, distinct-insert,
  contains_key_of_lookup,
}
use forgeguard.Base.Result.{ok, err}
use forgeguard.Core.Forest.{IsBelow, IsGrounded}
use forgeguard.Core.Forest.Edit
use forgeguard.Core.Segment.{segment_eq, segment_beq_iff}
use forgeguard.Core.Fgrn.{Fgrn, fgrn_eq, fgrn_beq_iff}
use forgeguard.Core.Spine.{Spine, OrgUnit, raised, spine_error, add, add_under, reparent}
use forgeguard.Core.Spine.Tree.{IsTree}
use forgeguard.Core.Spine.Path.{is_at_or_below_iff}

-- A tree with one more edge, or one edge moved, where the child is not the root and the new parent
-- does not stand below it.
module _ (s : Spine) (tree : IsTree s) (x new : Fgrn) (known : contains_key s.units new ≡ true)
    (free : ¬ IsBelow s.units new x) (lower : (x == s.root) ≡ false)
    (home : x.organization ≡ s.organization) where
  abbrev edited : Spine
  edited = record s { units = insert x (some new) s.units }

  edited-IsGrounded : (k : Fgrn) → contains_key edited.units k ≡ true → IsGrounded edited.units k
  edited-IsGrounded k c = elim (Bool-cases (x == k)) [
    | inl same ↦ Edit.IsGrounded-moved s.units x new (tree.grounded new known) free k same
    | inr other ↦
        let old : contains_key s.units k ≡ true =
          ground (arith, contains_key-insert x k (some new) s.units) in
        let (n, d) = tree.grounded k old in
        Edit.IsGrounded-insert s.units x new (tree.grounded new known) free n k d
  ]

  edited-IsTree : IsTree edited
  edited-IsTree = record {
    unique = distinct-insert x (some new) s.units tree.unique;
    top = ground (arith, lookup-insert x s.root (some new) s.units, tree.top);
    only_root = λ k h. ground (arith, lookup-insert x k (some new) s.units, tree.only_root k);
    closed = Edit.IsClosed-insert s.units x new known tree.closed;
    grounded = edited-IsGrounded;
    one_organization = λ k h. ground (
      arith,
      contains_key-insert x k (some new) s.units,
      fgrn_beq_iff x k,
      tree.one_organization k,
    );
  }

add_under-IsTree :
    (s t : Spine) (fgrn parent : Fgrn) → IsTree s → add_under s fgrn (some parent) ≡ ok t → IsTree t
unfolding add_under
add_under-IsTree s t fgrn parent tree h =
    let known : contains_key s.units parent ≡ true = ground arith in
    let new : contains_key s.units fgrn ≡ false = ground arith in
    let home : fgrn.organization ≡ s.organization =
      ground (arith, segment_beq_iff fgrn.organization s.organization) in
    let result : record s { units = insert fgrn (some parent) s.units } ≡ t = ground arith in
    let lower : (fgrn == s.root) ≡ false =
      ground (arith, fgrn_beq_iff fgrn s.root, contains_key_of_lookup s.units s.root tree.top) in
    let free : ¬ IsBelow s.units parent fgrn =
      λ b. Edit.not-IsBelow_new s.units fgrn new tree.closed b.0 parent known b.1 in
    subst IsTree result (edited-IsTree s tree fgrn parent known free lower home)

-- `add` keeps a tree a tree, and changes the parent edge of the new unit alone.
pub add-IsTree :
    (s t : Spine) (unit : OrgUnit)
    → IsTree s
    → add s unit ≡ ok t
    → IsTree t
      × ((k : Fgrn)
          → lookup k t.units ≡ (if unit.fgrn == k then some unit.parent else lookup k s.units))
unfolding add
add-IsTree s t unit tree h = go unit.parent h
  where
    go :
        (p : Option Fgrn)
        → add_under s unit.fgrn p ≡ ok t
        → IsTree t
          × ((k : Fgrn) → lookup k t.units ≡ (if unit.fgrn == k then some p else lookup k s.units))
    go none h = cc
    go (some p) h = (
      add_under-IsTree s t unit.fgrn p tree h,
      λ k.
          let result : record s { units = insert unit.fgrn (some p) s.units } ≡ t = ground arith in
          subst
            (λ (x : Spine).
              lookup k x.units ≡ (if unit.fgrn == k then some (some p) else lookup k s.units))
            result (lookup-insert unit.fgrn k (some p) s.units),
    )

-- What `reparent` does with units that the spine knows, but for its root: it refuses exactly the
-- moves that put a unit below itself, and any other move keeps the spine a tree and changes the
-- parent edge of the moved unit alone.
pub reparent-IsTree :
    (s : Spine) (node new_parent : Fgrn)
    → IsTree s
    → contains_key s.units node ≡ true
    → contains_key s.units new_parent ≡ true
    → node ≢ s.root
    → (IsBelow s.units new_parent node
        × (reparent s node new_parent
            ≡ err (raised (spine_error node "reparent would create a cycle"))))
      ⊎ ((t : Spine) × (reparent s node new_parent ≡ ok t)
          × IsTree t
          × ((k : Fgrn)
              → lookup k t.units
                ≡ (if node == k then some (some new_parent) else lookup k s.units)))
unfolding reparent
reparent-IsTree s node new tree cn cp nr =
    let (below, run, iff) = is_at_or_below_iff s tree new node cp cn in
    let lower : (node == s.root) ≡ false = ground (arith, fgrn_beq_iff node s.root) in
    elim (Bool-cases below) [
      | inl yes' ↦ inl (iff.0 yes', rw (cn, lower, cp, run, yes') refl)
      | inr no' ↦ inr (
        record s { units = insert node (some new) s.units },
        rw (cn, lower, cp, run, no') refl,
        edited-IsTree s tree node new cp (λ b. cc (iff.1 b)) lower (tree.one_organization node cn),
        λ k. lookup-insert node k (some new) s.units,
      )
    ]
