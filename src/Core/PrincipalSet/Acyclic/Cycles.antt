-- ===== src/Core/PrincipalSet/Acyclic/Cycles.antt =====
-- The visits end, and find a cycle exactly where there is one.
use forgeguard.Base.{
  ◌≡◌, ◌⊎◌, inl, inr, refl, sym, subst, true, List, [], ◌∷◌, contains, ◌==◌, ==-eq, arith,
  Bool-cases, All,
}
use forgeguard.Base.Assoc.{insert, contains_key, contains_key_of_lookup, contains_key-insert}
use forgeguard.Base.Result.{ok, err}
use forgeguard.Core.Fgrn.{Fgrn, kind_eq, fgrn_eq, fgrn_beq_iff}
use forgeguard.Core.PrincipalSet.{PrincipalSet}
use forgeguard.Core.PrincipalSet.Acyclic.{Sets, cycle_error, by_fgrn, visit_all, assert_acyclic}
use forgeguard.Core.PrincipalSet.Acyclic.Visits.{Cyclic, Leaves, visit-cases}

abbrev names : List PrincipalSet → List Fgrn
names [] = []
names (s ∷ sets) = s.fgrn ∷ names sets

module _ (map : Sets) where
  -- Each set of the list is visited from an empty path.
  visit_all-cases :
      (sets : List PrincipalSet)
      → ((visit_all map sets ≡ ok tt) × All (λ (s : PrincipalSet). Leaves map s.fgrn) sets)
        ⊎ ((a : Fgrn) × (visit_all map sets ≡ err (cycle_error a)) × Cyclic map)
  unfolding visit_all
  visit_all-cases [] = inl (refl, tt)
  visit_all-cases (s ∷ sets) = elim (visit-cases map s.fgrn) [
    | inl (e, leaves) ↦ elim (visit_all-cases sets) [
      | inl (e', all_leave) ↦ inl (rw (e, visit_all) e', (leaves, all_leave))
      | inr (a, e', cyclic) ↦ inr (a, rw (e, visit_all) e', cyclic)
    ]
    | inr (a, e, cyclic) ↦ inr (a, rw (e, visit_all) refl, cyclic)
  ]

  Leaves-of_All :
      (n : Fgrn) (sets : List PrincipalSet)
      → contains (names sets) n ≡ true
      → All (λ (s : PrincipalSet). Leaves map s.fgrn) sets
      → Leaves map n
  Leaves-of_All n [] c all_leave = cc
  Leaves-of_All n (s ∷ sets) c (leaves, all_leave) = elim (Bool-cases (n == s.fgrn)) [
    | inl y ↦ subst (Leaves map) (sym (==-eq n s.fgrn y)) leaves
    | inr f ↦ Leaves-of_All n sets (ground arith) all_leave
  ]

contains_key-by_fgrn :
    (sets : List PrincipalSet) (map : Sets) (n : Fgrn)
    → contains_key (by_fgrn sets map) n ≡ true
    → (contains_key map n ≡ true) ⊎ (contains (names sets) n ≡ true)
unfolding by_fgrn
contains_key-by_fgrn [] map n c = inl c
contains_key-by_fgrn (s ∷ sets) map n c =
    elim (contains_key-by_fgrn sets (insert s.fgrn s map) n c) [
      | inl h ↦ elim (Bool-cases (s.fgrn == n)) [
        | inl y ↦ inr (ground (arith, fgrn_beq_iff s.fgrn n, fgrn_beq_iff n s.fgrn))
        | inr f ↦ inl (ground (arith, contains_key-insert s.fgrn n s map))
      ]
      | inr h ↦ inr (ground arith)
    ]

-- The test always ends. It succeeds, and no chain of memberships between the loaded sets leads from
-- a set back to it; or it reports a cycle, and there is one. Of two loaded sets of one name, the later
-- one counts.
pub assert_acyclic_lem :
    (sets : List PrincipalSet)
    → ((assert_acyclic sets ≡ ok tt) × (Cyclic (by_fgrn sets []) → ⊥))
      ⊎ ((a : Fgrn) × (assert_acyclic sets ≡ err (cycle_error a)) × Cyclic (by_fgrn sets []))
unfolding assert_acyclic
assert_acyclic_lem sets =
    let map = by_fgrn sets [] in
    elim (visit_all-cases map sets) [
      | inr (a, e, cyclic) ↦ inr (a, e, cyclic)
      | inl (e, all_leave) ↦ inl (
        e,
        λ (n, m, (set, at, c, known), chain).
            elim (contains_key-by_fgrn sets [] n (contains_key_of_lookup map n {v = set} at)) [
              | inl h ↦ cc
              | inr h ↦ Leaves-of_All map n sets h all_leave m (set, at, c, known) chain
            ],
      )
    ]
