-- ===== src/Core/PrincipalSet/Tests.antt =====
-- Two teams that are members of one another, and one of them alone.
use forgeguard.Base.{◌≡◌, ◌⊎◌, refl, codes, String, List, [], ◌∷◌}
use forgeguard.Base.Assoc.{lookup, insert}
use forgeguard.Base.Result.{ok, err}
use forgeguard.Core.Fgrn.{Fgrn, fgrn_beq, org_unit_of, principal_set_of}
use forgeguard.Core.PrincipalSet.{PrincipalSet}
use forgeguard.Core.PrincipalSet.Acyclic.{
  by_fgrn, visit_members, visit, visit_all, assert_acyclic, cycle_error,
}
use forgeguard.Core.PrincipalSet.Acyclic.Visits.{Cyclic}
use forgeguard.Core.PrincipalSet.Acyclic.Cycles.{assert_acyclic_lem}

abbrev team : String → Fgrn
unfolding principal_set_of
team id = principal_set_of (record { raw = codes "acme" }) (record { raw = codes id })

abbrev with_member : String → String → PrincipalSet
unfolding org_unit_of
with_member id member = record {
  fgrn = team id;
  anchor = org_unit_of (record { raw = codes "acme" }) (record { raw = codes "root" });
  members = team member ∷ [];
}

abbrev both : List PrincipalSet
both = with_member "a" "b" ∷ with_member "b" "a" ∷ []

assert_acyclic_lem_example :
    ((assert_acyclic both ≡ ok tt) × (Cyclic (by_fgrn both []) → ⊥))
    ⊎ ((a : Fgrn) × (assert_acyclic both ≡ err (cycle_error a)) × Cyclic (by_fgrn both []))
assert_acyclic_lem_example = assert_acyclic_lem both

both_refused : assert_acyclic both ≡ err (cycle_error (team "a"))
unfolding team with_member assert_acyclic visit_all visit visit_members by_fgrn lookup insert
    fgrn_beq principal_set_of
both_refused = refl

-- A member that is not loaded is ignored.
one_accepted : assert_acyclic (with_member "a" "b" ∷ []) ≡ ok tt
unfolding team with_member assert_acyclic visit_all visit visit_members by_fgrn lookup insert
    fgrn_beq principal_set_of
one_accepted = refl
