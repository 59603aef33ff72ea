-- ===== src/Core/Spine/Tree.antt =====
-- What a `Spine` promises to whoever holds one.
use forgeguard.Base.{◌≡◌, true, none, some, distinct}
use forgeguard.Base.Assoc.{lookup, keys, contains_key}
use forgeguard.Core.Forest.{IsClosed, IsGrounded}
use forgeguard.Core.Fgrn.{Fgrn, fgrn_eq}
use forgeguard.Core.Spine.{Spine}

-- A single root, parents that exist, no cycles, and one organization.
pub record IsTree (s : Spine) : Type 0 where
  pub unique : distinct (keys s.units) ≡ true
  pub top : lookup s.root s.units ≡ some none
  pub only_root : (k : Fgrn) → lookup k s.units ≡ some none → k ≡ s.root
  pub closed : IsClosed s.units
  pub grounded : (k : Fgrn) → contains_key s.units k ≡ true → IsGrounded s.units k
  pub one_organization :
      (k : Fgrn) → contains_key s.units k ≡ true → k.organization ≡ s.organization
