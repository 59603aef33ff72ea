-- ===== src/Core/Delegation/Search.antt =====
-- The walk through the sets finds a member exactly where there is one, within its fuel.
pub mod Sound
pub mod Fuel
pub mod Complete
use forgeguard.Base.{◌≡◌, true, List, contains, some, Option}
use forgeguard.Core.Fgrn.{Fgrn, FgrnKind, principal_set, fgrn_eq}
use forgeguard.Core.PrincipalSet.{PrincipalSet, has_member}
use forgeguard.Core.Delegation.{find_set, set_members}

-- Transitive membership in the loaded sets: directly, or through a member that is a set.
pub data InSet (sets : List PrincipalSet) (who : Fgrn) : Fgrn → Type 0 where
  direct :
      {f : Fgrn} (set : PrincipalSet)
      → find_set sets f ≡ some set
      → has_member set who ≡ true
      → InSet sets who f
  nested :
      {f : Fgrn} (set : PrincipalSet) (m : Fgrn)
      → find_set sets f ≡ some set
      → contains (set_members set) m ≡ true
      → InSet sets who m
      → InSet sets who f
