-- ===== src/Core/PrincipalSet/Acyclic.antt =====
-- crates/core/src/principal_set.rs, `assert_acyclic`: no membership edges between sets form a cycle.
pub mod Visits
pub mod Cycles
use forgeguard.Base.{
  ℕ, zero, suc, Bool, true, false, not, ◌&&◌, List, [], ◌∷◌, ◌++◌, Option, none, some, contains,
  ◌==◌, length,
}
use forgeguard.Base.Assoc.{lookup, insert, contains_key}
use forgeguard.Base.Result.{Result, ok, err, ◌>>=◌, ◌>>◌, ensure}
use forgeguard.Core.Error.{Error}
use forgeguard.Core.Fgrn.{Fgrn, principal_set, kind_eq, fgrn_eq}
use forgeguard.Core.PrincipalSet.{PrincipalSet}
use forgeguard.Core.Spine.{Fault, raised, diverged}

abbrev pub Sets : Type 0
Sets = List (Fgrn × PrincipalSet)

abbrev pub cycle_error : Fgrn → Fault
cycle_error fgrn = raised (Error.grant fgrn.raw "principal-set membership cycle detected")

-- The map by name: of two sets of one name, the later one.
unfoldable pub by_fgrn : List PrincipalSet → Sets → Sets
by_fgrn [] map = map
by_fgrn (s ∷ sets) map = by_fgrn sets (insert s.fgrn s map)

-- The members that the loop goes into.
abbrev pub is_known_set : Sets → Fgrn → Bool
is_known_set map member = member.kind == principal_set && contains_key map member

unfoldable pub visit_members :
    (Fgrn → Result Fault (Unit {0})) → Sets → List Fgrn → Result Fault (Unit {0})
visit_members down map [] = ok tt
visit_members down map (member ∷ members) = do
  elim (is_known_set map member) [ true ↦ down member | false ↦ ok tt ]
  visit_members down map members

-- `visit`: a return restores the path, so the callee has its own.
unfoldable pub visit : Sets → ℕ → Fgrn → List Fgrn → Result Fault (Unit {0})
visit map zero fgrn path = err diverged
visit map (suc fuel) fgrn path = do
  ensure (not (contains path fgrn)) (cycle_error fgrn)
  elim (lookup fgrn map) [
    | none ↦ ok tt
    | some current_set ↦
        visit_members (λ member. visit map fuel member (path ++ fgrn ∷ [])) map current_set.members
  ]

unfoldable pub visit_all : Sets → List PrincipalSet → Result Fault (Unit {0})
visit_all map [] = ok tt
visit_all map (set ∷ sets) = do visit map (suc (length map)) set.fgrn []; visit_all map sets

-- No path is longer than there are sets.
unfoldable pub assert_acyclic : List PrincipalSet → Result Fault (Unit {0})
assert_acyclic sets = visit_all (by_fgrn sets []) sets
