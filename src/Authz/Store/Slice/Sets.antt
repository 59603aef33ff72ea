-- ===== src/Authz/Store/Slice/Sets.antt =====
-- The sets that a slice selects are those that the principal belongs to.
use forgeguard.Base.{
  ◌≤◌, ◌<◌, ◌≡◌, ◌⊎◌, refl, Bool, true, false, List, [], ◌∷◌, ◌++◌, contains, distinct, all, any,
  length, ◌==◌, arith, inl, inr, Bool-cases, ==_refl, ==-eq, contains-append, all-append, subst,
  sym, ap, ◌∙◌,
}
use forgeguard.Core.Fgrn.{Fgrn, fgrn_eq, fgrn_beq_iff}
use forgeguard.Base.Pigeonhole.{distinct-append}
use forgeguard.Core.PrincipalSet.{PrincipalSet, has_member}

-- The set is one of the list.
abbrev pub IsOne : PrincipalSet → List PrincipalSet → Type 0
IsOne set [] = ⊥
IsOne set (s ∷ sets) = (set ≡ s) ⊎ IsOne set sets

-- `who` belongs to the set named `f`: directly, or through another set.
pub data Belongs (sets : List PrincipalSet) (who : Fgrn) : Fgrn → Type 0 where
  directly :
      (set : PrincipalSet) → IsOne set sets → has_member set who ≡ true → Belongs sets who set.fgrn
  through :
      (set : PrincipalSet) {inner : Fgrn}
      → IsOne set sets
      → has_member set inner ≡ true
      → Belongs sets who inner
      → Belongs sets who set.fgrn

abbrev pub names : List PrincipalSet → List Fgrn
names [] = []
names (s ∷ sets) = s.fgrn ∷ names sets

names-append : (xs ys : List PrincipalSet) → names (xs ++ ys) ≡ names xs ++ names ys
names-append [] ys = refl
names-append (x ∷ xs) ys = ap (λ zs. x.fgrn ∷ zs) (names-append xs ys)

pub any-names :
    (sets : List PrincipalSet) (f : Fgrn) → any (λ s. s.fgrn == f) sets ≡ contains (names sets) f
any-names [] f = refl
any-names (s ∷ sets) f =
    ground (arith, any-names sets f, fgrn_beq_iff s.fgrn f, fgrn_beq_iff f s.fgrn)

module _ (sets : List PrincipalSet) (who : Fgrn) where
  -- What holds of the selected sets and of the members at each point of the loops.
  pub record State (selected : List PrincipalSet) (members : List Fgrn) : Type 0 where
    pub linked : members ≡ who ∷ names selected
    pub sound : (f : Fgrn) → contains (names selected) f ≡ true → Belongs sets who f
    pub unique : distinct (names selected) ≡ true
    pub known : all (contains (names sets)) (names selected) ≡ true

  -- A set that the loop has nothing to do for.
  abbrev pub Settled : List PrincipalSet → List Fgrn → PrincipalSet → Type 0
  Settled selected members set =
      (contains (names selected) set.fgrn ≡ true) ⊎ (any (has_member set) members ≡ false)

  -- A round over `todo` either leaves all as it is, with every set settled, or selects more.
  abbrev pub After :
      List PrincipalSet
      → List PrincipalSet
      → List Fgrn
      → Bool
      → List PrincipalSet × List Fgrn × Bool
      → Type 0
  After todo selected members grew r =
      State r.0 r.1
      × (length selected ≤ length r.0)
      × ((r.2 ≡ false)
          → (grew ≡ false)
            × (r.0 ≡ selected)
            × ((set : PrincipalSet) → IsOne set todo → Settled selected members set))
      × ((r.2 ≡ true) → (grew ≡ true) ⊎ (length selected < length r.0))

  -- A member of a set, of which one belongs.
  Belongs-any :
      (set : PrincipalSet) (members : List Fgrn)
      → IsOne set sets
      → ((f : Fgrn) → contains members f ≡ true → (f ≡ who) ⊎ Belongs sets who f)
      → any (has_member set) members ≡ true
      → Belongs sets who set.fgrn
  Belongs-any set [] o m h = cc
  Belongs-any set (f ∷ members) o m h = elim (Bool-cases (has_member set f)) [
    | inr n ↦ Belongs-any set members o (λ g c. m g (ground arith)) (ground arith)
    | inl y ↦ elim (m f (ground (arith, ==_refl f))) [
      | inl me ↦ directly set o (subst (λ g. has_member set g ≡ true) me y)
      | inr b ↦ through set o y b
    ]
  ]

  pub IsOne-names :
      (set : PrincipalSet) (todo : List PrincipalSet)
      → IsOne set todo
      → contains (names todo) set.fgrn ≡ true
  IsOne-names set [] o = absurd o
  IsOne-names set (s ∷ todo) (inl e) =
      subst (λ (x : PrincipalSet). contains (s.fgrn ∷ names todo) x.fgrn ≡ true) (sym e)
        (ground (arith, ==_refl s.fgrn))
  IsOne-names set (s ∷ todo) (inr o) = ground (arith, IsOne-names set todo o)

  -- Selecting one more set.
  pub State-push :
      (selected : List PrincipalSet) (members : List Fgrn) (set : PrincipalSet)
      → State selected members
      → IsOne set sets
      → contains (names selected) set.fgrn ≡ false
      → any (has_member set) members ≡ true
      → State (selected ++ set ∷ []) (members ++ set.fgrn ∷ [])
  State-push selected members set s o new has = record {
    linked =
        ap (λ ms. ms ++ set.fgrn ∷ []) s.linked
        ∙ ap (λ ms. who ∷ ms) (sym (names-append selected (set ∷ [])));
    sound = λ f c. elim (Bool-cases (contains (names selected) f)) [
      | inl old ↦ s.sound f old
      | inr fresh ↦
          subst (Belongs sets who) (sym (==-eq f set.fgrn (last f c fresh)))
            (Belongs-any set members o member has)
    ];
    unique =
        subst (λ ns. distinct ns ≡ true) (sym (names-append selected (set ∷ [])))
          (distinct-append (names selected) set.fgrn s.unique new);
    known =
        subst (λ ns. all (contains (names sets)) ns ≡ true) (sym (names-append selected (set ∷ [])))
          (ground (
            arith,
            all-append (contains (names sets)) (names selected) (set.fgrn ∷ []),
            IsOne-names set sets o,
            s.known,
          ));
  }
    where
      last :
          (f : Fgrn)
          → contains (names (selected ++ set ∷ [])) f ≡ true
          → contains (names selected) f ≡ false
          → (f == set.fgrn) ≡ true
      last f c fresh =
          let c' = subst (λ ns. contains ns f ≡ true) (names-append selected (set ∷ [])) c in
          ground (arith, contains-append (names selected) (set.fgrn ∷ []) f)

      member : (f : Fgrn) → contains members f ≡ true → (f ≡ who) ⊎ Belongs sets who f
      member f c =
          let c' = subst (λ ms. contains ms f ≡ true) s.linked c in
          elim (Bool-cases (f == who)) [
            | inl e ↦ inl (==-eq f who e)
            | inr n ↦ inr (s.sound f (ground arith))
          ]
