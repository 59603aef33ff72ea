-- ===== src/Core/PrincipalSet/Acyclic/Visits.antt =====
-- A visit ends, and says whether there is a way back to its path or round in a cycle.
use forgeguard.Base.{
  ℕ, zero, suc, ◌+◌, ◌<◌, ◌≡◌, ◌⊎◌, inl, inr, refl, sym, subst, true, false, List, [], ◌∷◌, ◌++◌,
  none, some, contains, contains-append, distinct, all, all-append, length, length-append, ◌==◌,
  ==_refl, ==-eq, arith, Bool-cases, Option-cases,
}
use forgeguard.Base.Pigeonhole.{length-le-of_distinct, distinct-append}
use forgeguard.Base.Assoc.{lookup, keys, contains_key, length-keys, contains_key_of_lookup}
use forgeguard.Base.Result.{Result, ok, err}
use forgeguard.Core.Fgrn.{Fgrn, kind_eq, fgrn_eq, fgrn_beq_iff}
use forgeguard.Core.PrincipalSet.{PrincipalSet}
use forgeguard.Core.Spine.{Fault}
use forgeguard.Core.PrincipalSet.Acyclic.{Sets, cycle_error, is_known_set, visit_members, visit}

-- A loaded set has a member that is a loaded set.
abbrev pub Edge : Sets → Fgrn → Fgrn → Type 0
Edge map n m =
    (set : PrincipalSet) × (lookup n map ≡ some set)
    × (contains set.members m ≡ true)
    × (is_known_set map m ≡ true)

pub data Chain (map : Sets) : Fgrn → Fgrn → Type 0 where
  here : {n : Fgrn} → Chain map n n
  step : {n : Fgrn} (m : Fgrn) {k : Fgrn} → Edge map n m → Chain map m k → Chain map n k

abbrev pub Cyclic : Sets → Type 0
Cyclic map = (n : Fgrn) × (m : Fgrn) × Edge map n m × Chain map m n

module _ (map : Sets) where
  Avoids : Fgrn → List Fgrn → Type 0
  Avoids n path = (m : Fgrn) → Chain map n m → contains path m ≡ false

  -- No way leads back.
  abbrev pub Leaves : Fgrn → Type 0
  Leaves n = (m : Fgrn) → Edge map n m → ¬ Chain map m n

  Meets : Fgrn → List Fgrn → Type 0
  Meets n path = (m : Fgrn) × Chain map n m × (contains path m ≡ true)

  -- What a visit returns says whether the sets below the name stay clear of the path.
  Outcome : Fgrn → List Fgrn → Result Fault (Unit {0}) → Type 0
  Outcome n path r =
      ((r ≡ ok tt) × Avoids n path × Leaves n)
      ⊎ ((a : Fgrn) × (r ≡ err (cycle_error a)) × (Meets n path ⊎ Cyclic map))

  AreMembers : List Fgrn → List Fgrn → Result Fault (Unit {0}) → Type 0
  AreMembers members path r =
      ((r ≡ ok tt)
        × ((m : Fgrn) → contains members m ≡ true → is_known_set map m ≡ true → Avoids m path))
      ⊎ ((a : Fgrn) × (m : Fgrn) × (r ≡ err (cycle_error a))
          × (contains members m ≡ true)
          × (is_known_set map m ≡ true)
          × (Meets m path ⊎ Cyclic map))

  visit_members-AreMembers :
      (down : Fgrn → Result Fault (Unit {0})) (path : List Fgrn)
      (ends : (m : Fgrn) → Outcome m path (down m)) (members : List Fgrn)
      → AreMembers members path (visit_members down map members)
  unfolding visit_members AreMembers Outcome
  visit_members-AreMembers down path ends [] = inl (refl, λ m c. cc)
  visit_members-AreMembers down path ends (m ∷ members) = elim (Bool-cases (is_known_set map m)) [
    | inr n ↦ elim (visit_members-AreMembers down path ends members) [
      | inl (e, avoid) ↦
          inl
            (rw (n, visit_members) e, λ k c known. avoid k (ground (arith, fgrn_beq_iff k m)) known)
      | inr (a, k, e, c, known, w) ↦ inr (a, k, rw (n, visit_members) e, ground arith, known, w)
    ]
    | inl y ↦ elim (ends m) [
      | inr (a, e, w) ↦ inr (a, m, rw (y, e, visit_members) refl, ground (arith, ==_refl m), y, w)
      | inl (e, here_avoids, _) ↦ elim (visit_members-AreMembers down path ends members) [
        | inl (e', avoid) ↦ inl (
          rw (y, e, visit_members) e',
          λ k c known. elim (Bool-cases (k == m)) [
            | inl s ↦ subst (λ x. Avoids x path) (sym (==-eq k m s)) here_avoids
            | inr n ↦ avoid k (ground arith) known
          ],
        )
        | inr (a, k, e', c, known, w) ↦
            inr (a, k, rw (y, e, visit_members) e', ground arith, known, w)
      ]
    ]
  ]

  -- A path has loaded sets, each once.
  IsPath : List Fgrn → Type 0
  IsPath path = (distinct path ≡ true) × (all (contains_key map) path ≡ true)

  visit_below :
      (n : Fgrn) (path : List Fgrn) (set : PrincipalSet) (r : Result Fault (Unit {0}))
      → contains path n ≡ false
      → lookup n map ≡ some set
      → AreMembers set.members (path ++ n ∷ []) r
      → Outcome n path r
  unfolding AreMembers Outcome Avoids Meets
  visit_below n path set r new at (inl (e, avoid)) = inl (e, clear, leaves)
    where
      leaves : (k : Fgrn) → Edge map n k → ¬ Chain map k n
      leaves k (other, at', c, known) chain =
          let same : other ≡ set = cc in
          let away =
            avoid k (subst (λ (x : PrincipalSet). contains x.members k ≡ true) same c) known n
              chain in
          absurd (ground (arith, contains-append path (n ∷ []) n, ==_refl n))

      clear : (m : Fgrn) → Chain map n m → contains path m ≡ false
      clear m here = new
      clear m (step k (other, at', c, known) chain) =
          let same : other ≡ set = cc in
          let away =
            avoid k (subst (λ (x : PrincipalSet). contains x.members k ≡ true) same c) known m
              chain in
          ground (arith, contains-append path (n ∷ []) m)
  visit_below n path set r new at (inr (a, k, e, c, known, inr cyclic)) = inr (a, e, inr cyclic)
  visit_below n path set r new at (inr (a, k, e, c, known, inl (m, chain, on))) =
      elim (Bool-cases (contains path m)) [
        | inl y ↦ inr (a, e, inl (m, step k (set, at, c, known) chain, y))
        | inr f ↦
            let same : (m == n) ≡ true = ground (arith, contains-append path (n ∷ []) m) in
            let back : m ≡ n = ==-eq m n same in
            inr (a, e, inr (n, k, (set, at, c, known), subst (λ x. Chain map k x) back chain))
      ]

  visit-Outcome :
      (fuel : ℕ) (n : Fgrn) (path : List Fgrn)
      → IsPath path
      → length map < fuel + length path
      → Outcome n path (visit map fuel n path)
  unfolding visit IsPath Outcome Meets Avoids
  visit-Outcome zero n path (d, k) l =
      absurd (omega (arith, length-le-of_distinct path (keys map) d k, length-keys map))
  visit-Outcome (suc fuel) n path (d, k) l = elim (Bool-cases (contains path n)) [
    | inl y ↦ at_path y
    | inr f ↦ elim (Option-cases (lookup n map)) [
      | inl e ↦ unknown f e
      | inr (set, e) ↦ subst (Outcome n path) (sym (into set f e)) (
          visit_below n path set _ f e (
            visit_members-AreMembers _ (path ++ n ∷ [])
              (λ m.
                visit-Outcome fuel m (path ++ n ∷ [])
                  (
                    distinct-append path n d f,
                    ground (
                      arith,
                      all-append (contains_key map) path (n ∷ []),
                      contains_key_of_lookup map n {v = set} e,
                    ),
                  )
                  (omega (arith, length-append path (n ∷ []))))
              set.members))
    ]
  ]
    where
      into :
          (set : PrincipalSet)
          → contains path n ≡ false
          → lookup n map ≡ some set
          → visit map (suc fuel) n path
            ≡ visit_members (λ m. visit map fuel m (path ++ n ∷ [])) map set.members
      into set f e = rw (f, e, visit) refl

      at_path : contains path n ≡ true → Outcome n path (visit map (suc fuel) n path)
      at_path y = inr (n, rw (y, visit) refl, inl (n, here, y))

      unknown :
          contains path n ≡ false
          → lookup n map ≡ none
          → Outcome n path (visit map (suc fuel) n path)
      unknown f e = inl (rw (f, e, visit) refl, clear, λ k (set, at, c, known) chain. cc)
        where
          clear : (m : Fgrn) → Chain map n m → contains path m ≡ false
          clear m here = f
          clear m (step k (set, at, c, known) chain) = cc

  -- A visit from an empty path.
  pub visit-cases :
      (n : Fgrn)
      → ((visit map (suc (length map)) n [] ≡ ok tt) × Leaves n)
        ⊎ ((a : Fgrn) × (visit map (suc (length map)) n [] ≡ err (cycle_error a)) × Cyclic map)
  unfolding Outcome Meets IsPath
  visit-cases n = elim (visit-Outcome (suc (length map)) n [] (refl, refl) (omega arith)) [
    | inl (e, _, leaves) ↦ inl (e, leaves)
    | inr (a, e, inl (m, chain, on)) ↦ cc
    | inr (a, e, inr cyclic) ↦ inr (a, e, cyclic)
  ]
