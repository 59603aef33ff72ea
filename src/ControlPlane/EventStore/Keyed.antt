-- ===== src/ControlPlane/EventStore/Keyed.antt =====
-- Maps whose keys begin with an organization, against the maps of that organization.
use forgeguard.Base.{
  ◌≡◌, Str, false, List, Option, none, some, ◌==◌, Eq, nat_eq, list_eq, pair_eq, arith, ==_refl,
}
use forgeguard.Base.Assoc.{lookup, insert, remove, lookup-insert, lookup-remove}

module _ {K V W : Type 0} ⦃e : Eq K⦄ where
  -- What a map makes of a key is what the other makes of it, up to a view of the values.
  pub insert_for :
      (org_id : Str) (k sought : K) (v : V) (w : W) (view : Option V → Option W)
      (m : List ((Str × K) × V)) (n : List (K × W))
      → view (some v) ≡ some w
      → view (lookup (org_id, sought) m) ≡ lookup sought n
      → view (lookup (org_id, sought) (insert (org_id, k) v m)) ≡ lookup sought (insert k w n)
  insert_for org_id k sought v w view m n h same = ground (
    arith,
    lookup-insert (org_id, k) (org_id, sought) v m,
    lookup-insert k sought w n,
    ==_refl org_id,
  )

  pub remove_for :
      (org_id : Str) (k sought : K) (view : Option V → Option W) (m : List ((Str × K) × V))
      (n : List (K × W))
      → view none ≡ none
      → view (lookup (org_id, sought) m) ≡ lookup sought n
      → view (lookup (org_id, sought) (remove (org_id, k) m)) ≡ lookup sought (remove k n)
  remove_for org_id k sought view m n h same = ground (
    arith,
    lookup-remove (org_id, k) (org_id, sought) m,
    lookup-remove k sought n,
    ==_refl org_id,
  )

module _ {K V : Type 0} ⦃e : Eq K⦄ where
  pub insert_for_other :
      (org_id other : Str) (k sought : K) (v : V) (m : List ((Str × K) × V))
      → (org_id == other) ≡ false
      → lookup (other, sought) (insert (org_id, k) v m) ≡ lookup (other, sought) m
  insert_for_other org_id other k sought v m h =
      ground (arith, lookup-insert (org_id, k) (other, sought) v m)

  pub remove_for_other :
      (org_id other : Str) (k sought : K) (m : List ((Str × K) × V))
      → (org_id == other) ≡ false
      → lookup (other, sought) (remove (org_id, k) m) ≡ lookup (other, sought) m
  remove_for_other org_id other k sought m h =
      ground (arith, lookup-remove (org_id, k) (other, sought) m)
