-- ===== src/Core/Spine/Path.antt =====
-- The methods that climb a spine.
use forgeguard.Base.{ℕ, ◌≡◌, ◌↔◌, refl, Bool, true, List, [], contains, arith, inl, inr, length}
use forgeguard.Base.Assoc.{contains_key}
use forgeguard.Base.Result.{ok}
use forgeguard.Core.Forest.{PathTo, IsBelow}
use forgeguard.Core.Forest.Depth.{Depth-lt-length}
use forgeguard.Core.Forest.Climb.{walk_up-PathTo, IsBelow_of_contains, contains_of_IsBelow}
use forgeguard.Core.Fgrn.{Fgrn, fgrn_eq}
use forgeguard.Core.Spine.{Spine, path, is_at_or_below}
use forgeguard.Core.Spine.Tree.{IsTree}

module _ (s : Spine) (tree : IsTree s) where
  -- The path of a known unit is found within the rounds that the spine has units: it leads along
  -- the parent edges from a unit without a parent down to the unit.
  pub path-PathTo :
      (k : Fgrn)
      → contains_key s.units k ≡ true
      → (found : List Fgrn) × (n : ℕ) × (path s k ≡ ok found) × PathTo s.units n k found []
  unfolding path
  path-PathTo k c =
      let (n, d) = tree.grounded k c in
      let (found, run, to) =
        walk_up-PathTo s.units tree.closed n (length s.units) k [] d
          (omega (arith, Depth-lt-length s.units n k d)) in
      (found, n, rw (c, run) refl, to)

  -- Of two known units, whether one is at or below the other is what the parent edges say.
  pub is_at_or_below_iff :
      (node ancestor : Fgrn)
      → contains_key s.units node ≡ true
      → contains_key s.units ancestor ≡ true
      → (b : Bool) × (is_at_or_below s node ancestor ≡ ok b)
        × ((b ≡ true) ↔ IsBelow s.units node ancestor)
  unfolding is_at_or_below
  is_at_or_below_iff node ancestor cn ca =
      let (found, n, run, to) = path-PathTo node cn in
      (
        contains found ancestor,
        rw (run, ca) refl,
        (
          (λ h. elim (IsBelow_of_contains s.units n node ancestor found [] to h) [
            | inl below ↦ below
            | inr never ↦ cc
          ]),
          contains_of_IsBelow s.units n node ancestor found [] to,
        ),
      )
