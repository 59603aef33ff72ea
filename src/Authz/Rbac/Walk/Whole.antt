-- ===== src/Authz/Rbac/Walk/Whole.antt =====
-- The whole walk: it ends within its fuel, and keeps its promises.
use forgeguard.Base.{
  ℕ, zero, suc, ◌+◌, ◌<◌, Str, ◌≡◌, refl, true, false, List, [], ◌∷◌, some, contains, length, ◌==◌,
  nat_eq, list_eq, arith, inl, inr, ==_refl, ==-eq, Bool-cases, Option-cases, sym, ap, subst,
}
use forgeguard.Base.Assoc.{lookup, keys, contains_key_of_lookup, length-keys}
use forgeguard.Base.Pigeonhole.{length-le-of_distinct}
use forgeguard.Base.Result.{Result, ok, err, ◌>>=◌}
use forgeguard.Authz.Rbac.{
  InheritanceWalker, Names, Fault, failed, out_of_fuel, parents_of, collect_all, collect, enter,
  leave,
}
use forgeguard.Authz.Rbac.Add.{IsTidy}
use forgeguard.Authz.Rbac.Walk.{
  Inherits, Inherits-before, Reaches, once, more, Closed, Outcome, OnTheWay,
}
use forgeguard.Authz.Rbac.Walk.Collect.{collect_all-Outcome, entered, left, Grows-refl}

module _ (rbac_map inherits_map : Names) where
  -- From a role on to one of its parents.
  OnTheWay-step :
      (visiting : List Str) (role p : Str) (actions : List Str)
      → OnTheWay rbac_map inherits_map visiting role
      → contains visiting role ≡ false
      → lookup role rbac_map ≡ some actions
      → contains (parents_of inherits_map role) p ≡ true
      → OnTheWay rbac_map inherits_map (role ∷ visiting) p
  OnTheWay-step visiting role p actions way new l m = record {
    distinct_roles = ground (arith, way.distinct_roles);
    defined = ground (arith, way.defined, contains_key_of_lookup rbac_map role l);
    above = λ v h. elim (Bool-cases (v == role)) [
      | inl same ↦ subst (λ r. Inherits inherits_map r p) (sym (==-eq v role same)) (once m)
      | inr other ↦ more (way.above v (ground arith)) m
    ];
  }

  -- What a parent reaches, a role inherits from.
  Reaches-before :
      (role parent other : Str)
      → contains (parents_of inherits_map role) parent ≡ true
      → Reaches inherits_map parent other
      → Reaches inherits_map role other
  Reaches-before role parent other m (inl same) =
      inr (subst (λ r. Inherits inherits_map role r) (sym same) (once m))
  Reaches-before role parent other m (inr way) = inr (Inherits-before inherits_map m way)

  pub collect-Outcome :
      (fuel : ℕ) (role : Str) (w : InheritanceWalker)
      → OnTheWay rbac_map inherits_map w.visiting role
      → IsTidy w
      → Closed rbac_map inherits_map w
      → length rbac_map < fuel + length w.visiting
      → Outcome rbac_map inherits_map (role ∷ []) w (collect rbac_map inherits_map fuel role w)
  unfolding collect
  collect-Outcome zero role w way tidy closed l = absurd (
      omega (
        arith,
        length-le-of_distinct w.visiting (keys rbac_map) way.distinct_roles way.defined,
        length-keys rbac_map,
      ))
  collect-Outcome (suc fuel) role w way tidy closed l =
      elim (Bool-cases (contains w.visiting role)) [
        | inl back ↦
            rw (back, collect)
              (role, ground (arith, ==_refl role), inl (role, refl, inl refl, way.above role back))
        | inr new ↦ elim (Bool-cases (contains w.visited role)) [
          | inl old ↦
              rw (new, old, collect)
                (
                  Grows-refl rbac_map inherits_map w tidy closed,
                  (λ p h.
                      subst (λ q. contains w.visited q ≡ true) (sym (==-eq p role (ground arith)))
                        old),
                  λ a h. inl h,
                )
          | inr fresh ↦ elim (Option-cases (lookup role rbac_map)) [
            | inl e ↦
                rw (new, fresh, e, collect)
                  (role, ground (arith, ==_refl role), inr (role, refl, inl refl, e))
            | inr (actions, e) ↦
                let (c, t, has, v, d) = entered rbac_map inherits_map role actions w tidy closed in
                rw (new, fresh, e, collect)
                  (finish actions e new
                    (collect_all (λ p v. collect rbac_map inherits_map fuel p v)
                      (parents_of inherits_map role) (enter role actions w))
                    (collect_all-Outcome rbac_map inherits_map
                      (λ p v. collect rbac_map inherits_map fuel p v) (role ∷ w.visiting)
                      (parents_of inherits_map role)
                      (λ p u m s t' c'.
                        collect-Outcome fuel p u
                          (subst (λ (x : List Str). OnTheWay rbac_map inherits_map x p) (sym s)
                            (OnTheWay-step w.visiting role p actions way new e m))
                          t' c' (omega (arith, ap length s)))
                      (enter role actions w) v t c))
          ]
        ]
      ]
    where
      finish :
          (actions : List Str)
          → lookup role rbac_map ≡ some actions
          → contains w.visiting role ≡ false
          → (r : Result Fault InheritanceWalker)
          → Outcome rbac_map inherits_map (parents_of inherits_map role) (enter role actions w) r
          → Outcome rbac_map inherits_map (role ∷ []) w (r >>= λ inner. ok (leave role inner))
      finish actions e new (err (failed message)) (start, m, inl (r, text, way, around)) = (
        role,
        ground (arith, ==_refl role),
        inl (r, text, Reaches-before role start r m way, around),
      )
      finish actions e new (err (failed message)) (start, m, inr (r, text, way, absent)) = (
        role,
        ground (arith, ==_refl role),
        inr (r, text, Reaches-before role start r m way, absent),
      )
      finish actions e new (err out_of_fuel) bad = bad
      finish actions e new (ok inner) good =
          left rbac_map inherits_map role actions w inner e new tidy closed good
