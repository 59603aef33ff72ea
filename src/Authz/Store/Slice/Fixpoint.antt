-- ===== src/Authz/Store/Slice/Fixpoint.antt =====
-- The rounds of the selection reach a fixpoint.
use forgeguard.Base.{
  ℕ, zero, suc, ◌+◌, ◌<◌, ◌≡◌, ◌↔◌, refl, Bool, true, false, List, [], ◌∷◌, ◌++◌, contains, all,
  any, length, ◌==◌, arith, inl, inr, Bool-cases, ==_refl, ==-eq, length-append, subst, sym, ap,
  ◌∙◌,
}
use forgeguard.Base.Pigeonhole.{length-le-of_distinct}
use forgeguard.Core.Fgrn.{Fgrn, fgrn_eq}
use forgeguard.Core.PrincipalSet.{PrincipalSet, has_member}
use forgeguard.Authz.Store.{ModelState}
use forgeguard.Authz.Store.Slice.{select_round, select_rounds, transitive_principal_sets}
use forgeguard.Authz.Store.Slice.Sets.{
  IsOne, Belongs, directly, through, names, any-names, State, Settled, After, State-push,
}

length-names : (sets : List PrincipalSet) → length (names sets) ≡ length sets
length-names [] = refl
length-names (s ∷ sets) = ap suc (length-names sets)

module _ (sets : List PrincipalSet) (who : Fgrn) where
  select_round-After :
      (todo : List PrincipalSet) (part : (set : PrincipalSet) → IsOne set todo → IsOne set sets)
      (selected : List PrincipalSet) (members : List Fgrn) (grew : Bool)
      → State sets who selected members
      → After sets who todo selected members grew (select_round todo selected members grew)
  unfolding select_round
  select_round-After [] part selected members grew s =
      (s, omega arith, (λ h. (h, refl, λ set o. absurd o)), λ h. inl h)
  select_round-After (set ∷ todo) part selected members grew s =
      elim (Bool-cases (any (λ t. t.fgrn == set.fgrn) selected)) [
        | inl old ↦
            rw (old, select_round)
              (skipped set todo selected members grew (select_round todo selected members grew)
                (inl (sym (any-names selected set.fgrn) ∙ old))
                (select_round-After todo (λ t o. part t (inr o)) selected members grew s))
        | inr new ↦ elim (Bool-cases (any (has_member set) members)) [
          | inr none_in ↦
              rw (new, none_in, select_round)
                (skipped set todo selected members grew (select_round todo selected members grew)
                  (inr none_in)
                  (select_round-After todo (λ t o. part t (inr o)) selected members grew s))
          | inl has ↦
              rw (new, has, select_round)
                (pushed set todo selected members grew
                  (select_round todo (selected ++ set ∷ []) (members ++ set.fgrn ∷ []) true)
                  (select_round-After todo (λ t o. part t (inr o)) (selected ++ set ∷ [])
                    (members ++ set.fgrn ∷ []) true
                    (State-push sets who selected members set s (part set (inl refl))
                      (sym (any-names selected set.fgrn) ∙ new) has)))
        ]
      ]
    where
      skipped :
          (set : PrincipalSet) (todo selected : List PrincipalSet) (members : List Fgrn)
          (grew : Bool) (r : List PrincipalSet × List Fgrn × Bool)
          → Settled sets who selected members set
          → After sets who todo selected members grew r
          → After sets who (set ∷ todo) selected members grew r
      skipped set todo selected members grew r settled (t, l, still, more) = (
        t,
        l,
        (λ h.
            let (g, e, all) = still h in
            (
              g,
              e,
              λ u o. elim o [
                | inl same ↦ subst (Settled sets who selected members) (sym same) settled
                | inr later ↦ all u later
              ],
            )),
        more,
      )

      pushed :
          (set : PrincipalSet) (todo selected : List PrincipalSet) (members : List Fgrn)
          (grew : Bool) (r : List PrincipalSet × List Fgrn × Bool)
          → After sets who todo (selected ++ set ∷ []) (members ++ set.fgrn ∷ []) true r
          → After sets who (set ∷ todo) selected members grew r
      pushed set todo selected members grew r (t, l, still, more) = (
        t,
        omega (arith, length-append selected (set ∷ [])),
        (λ h. cc ((still h).0)),
        λ h. inr (omega (arith, length-append selected (set ∷ []))),
      )

  -- The names of the selected sets are those of the sets that the member belongs to.
  abbrev Exact : List PrincipalSet → Type 0
  Exact selected = (f : Fgrn) → (contains (names selected) f ≡ true) ↔ Belongs sets who f

  any-has :
      (set : PrincipalSet) (members : List Fgrn) (f : Fgrn)
      → contains members f ≡ true
      → has_member set f ≡ true
      → any (has_member set) members ≡ true
  any-has set [] f c h = cc
  any-has set (m ∷ members) f c h = elim (Bool-cases (f == m)) [
    | inl e ↦ let here = subst (λ g. has_member set g ≡ true) (==-eq f m e) h in ground arith
    | inr n ↦ ground (arith, any-has set members f (ground arith) h)
  ]

  Exact-of_Settled :
      (selected : List PrincipalSet) (members : List Fgrn)
      → State sets who selected members
      → ((set : PrincipalSet) → IsOne set sets → Settled sets who selected members set)
      → Exact selected
  Exact-of_Settled selected members s settled f = (s.sound f, complete f)
    where
      chosen :
          (set : PrincipalSet) (g : Fgrn)
          → IsOne set sets
          → has_member set g ≡ true
          → contains (who ∷ names selected) g ≡ true
          → contains (names selected) set.fgrn ≡ true
      chosen set g o h c = elim (settled set o) [
        | inl already ↦ already
        | inr none_in ↦ absurd (
            ground (
              arith,
              any-has set members g (subst (λ ms. contains ms g ≡ true) (sym s.linked) c) h,
            ))
      ]

      complete : (f : Fgrn) → Belongs sets who f → contains (names selected) f ≡ true
      complete _ (directly set o h) = chosen set who o h (ground (arith, ==_refl who))
      complete _ (through set {inner} o h b) =
          let c = complete inner b in chosen set inner o h (ground arith)

  select_rounds-Exact :
      (rounds : ℕ) (selected : List PrincipalSet) (members : List Fgrn)
      → State sets who selected members
      → length sets < rounds + length selected
      → Exact (select_rounds rounds sets selected members)
  unfolding select_rounds
  select_rounds-Exact zero selected members s l = absurd (
      omega (
        arith,
        length-le-of_distinct (names selected) (names sets) s.unique s.known,
        length-names selected,
        length-names sets,
      ))
  select_rounds-Exact (suc rounds) selected members s l =
      round (select_round sets selected members false)
        (select_round-After sets (λ t o. o) selected members false s)
        (λ sel mem t more. select_rounds-Exact rounds sel mem t more)
    where
      round :
          (r : List PrincipalSet × List Fgrn × Bool)
          → After sets who sets selected members false r
          → ((sel : List PrincipalSet) (mem : List Fgrn)
              → State sets who sel mem
              → length sets < rounds + length sel
              → Exact (select_rounds rounds sets sel mem))
          → Exact (
              let (sel, mem, grew) = r in
              elim grew [ true ↦ select_rounds rounds sets sel mem | false ↦ sel ])
      round (sel, mem, true) (t, le, still, more) next =
          next sel mem t (elim (more refl) [ inl e ↦ absurd (cc e) | inr lt ↦ omega arith ])
      round (sel, mem, false) (t, le, still, more) next =
          let (g, e, all) = still refl in
          subst Exact (sym e) (Exact-of_Settled selected members s all)

-- A slice selects the sets that the principal belongs to, directly or through other sets, and no
-- others: the bounded rounds reach the fixpoint, whatever cycles the membership has.
pub transitive_principal_sets_iff :
    (model : ModelState) (member f : Fgrn)
    → (contains (names (transitive_principal_sets model member)) f ≡ true)
      ↔ Belongs model.sets member f
unfolding transitive_principal_sets
transitive_principal_sets_iff model member f =
    select_rounds-Exact model.sets member (suc (length model.sets)) [] (member ∷ [])
      (record { linked = refl; sound = λ g c. cc; unique = refl; known = refl }) (omega arith) f
