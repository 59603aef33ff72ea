-- ===== src/Core/Delegation/Search/Fuel.antt =====
-- The walk ends within as many levels as there are sets.
use forgeguard.Base.{
  ℕ, zero, suc, ◌+◌, ◌≤◌, ◌<◌, ◌≡◌, refl, true, List, [], ◌∷◌, some, contains, ◌==◌, arith, ==_refl,
  Bool-cases, Option-cases, inl, inr, distinct, all, length, ap, subst,
}
use forgeguard.Base.Pigeonhole.{length-le-of_distinct}
use forgeguard.Core.Fgrn.{Fgrn, fgrn_eq}
use forgeguard.Core.PrincipalSet.{PrincipalSet, has_member}
use forgeguard.Core.Delegation.{
  Visit, found, passed, out_of_fuel, find_set, set_members, any_member, walk, Visit-cases,
}

abbrev names : List PrincipalSet → List Fgrn
names [] = []
names (s ∷ sets) = s.fgrn ∷ names sets

length-names : (sets : List PrincipalSet) → length (names sets) ≡ length sets
length-names [] = refl
length-names (s ∷ sets) = ap suc (length-names sets)

-- What is found is one of the sets.
names-find_set :
    (sets : List PrincipalSet) (f : Fgrn) (set : PrincipalSet)
    → find_set sets f ≡ some set
    → contains (names sets) set.fgrn ≡ true
names-find_set [] f set h = cc
names-find_set (s ∷ sets) f set h = elim (Bool-cases (s.fgrn == f)) [
  | inl e ↦
      let same : s ≡ set = ground arith in
      subst (λ (x : PrincipalSet). contains (s.fgrn ∷ names sets) x.fgrn ≡ true) same
        (ground (arith, ==_refl s.fgrn))
  | inr e ↦ ground (arith, names-find_set sets f set)
]

module _ (sets : List PrincipalSet) (who : Fgrn) where
  -- The visited sets are some of the loaded ones, each of them once.
  abbrev pub AreVisited : List Fgrn → Type 0
  AreVisited v = (distinct v ≡ true) × (all (contains (names sets)) v ≡ true)

  -- A walk that ended, with no fewer visited sets than before.
  abbrev pub Ended : List Fgrn → Visit → Type 0
  Ended v (found w) = AreVisited w × (length v ≤ length w)
  Ended v (passed w) = AreVisited w × (length v ≤ length w)
  Ended v out_of_fuel = ⊥

  Ended-trans : (u v : List Fgrn) (r : Visit) → length u ≤ length v → Ended v r → Ended u r
  Ended-trans u v (found w) h (a, l) = (a, omega arith)
  Ended-trans u v (passed w) h (a, l) = (a, omega arith)
  Ended-trans u v out_of_fuel h e = absurd e

  any_member-Ended :
      (step : Fgrn → List Fgrn → Visit) (bound : ℕ)
      (ends : (m : Fgrn) (v : List Fgrn) → AreVisited v → bound ≤ length v → Ended v (step m v))
      (ms v : List Fgrn)
      → AreVisited v
      → bound ≤ length v
      → Ended v (any_member step ms v)
  unfolding any_member
  any_member-Ended step bound ends [] v a l = (a, omega arith)
  any_member-Ended step bound ends (m ∷ ms) v a l = elim (Visit-cases (step m v)) [
    | inl (w, e) ↦ rw (e, any_member) (subst (Ended v) e (ends m v a l))
    | inr (inl (w, e)) ↦
        let (aw, lw) = subst (Ended v) e (ends m v a l) in
        rw (e, any_member)
          (Ended-trans v w (any_member step ms w) lw
            (any_member-Ended step bound ends ms w aw (omega arith)))
    | inr (inr e) ↦ absurd (subst (Ended v) e (ends m v a l))
  ]

  pub walk-Ended :
      (fuel : ℕ) (f : Fgrn) (v : List Fgrn)
      → AreVisited v
      → length sets < fuel + length v
      → Ended v (walk sets who fuel f v)
  unfolding walk
  walk-Ended zero f v (d, a) l =
      absurd (omega (arith, length-le-of_distinct v (names sets) d a, length-names sets))
  walk-Ended (suc fuel) f v (d, a) l = elim (Option-cases (find_set sets f)) [
    | inl e ↦ rw (e, walk) ((d, a), omega arith)
    | inr (set, e) ↦ elim (Bool-cases (contains v set.fgrn)) [
      | inl c ↦ rw (e, c, walk) ((d, a), omega arith)
      | inr c ↦
          let next : AreVisited (set.fgrn ∷ v) = ground (arith, names-find_set sets f set e) in
          elim (Bool-cases (has_member set who)) [
            | inl h ↦ rw (e, c, h, walk) (next, omega arith)
            | inr h ↦
                rw (e, c, h, walk)
                  (Ended-trans v (set.fgrn ∷ v) _ (omega arith) (
                    any_member-Ended (λ m v. walk sets who fuel m v) (suc (length v))
                      (λ m w aw lw. walk-Ended fuel m w aw (omega arith)) (set_members set)
                      (set.fgrn ∷ v) next (omega arith)))
          ]
    ]
  ]
