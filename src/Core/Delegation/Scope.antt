-- ===== src/Core/Delegation/Scope.antt =====
-- The effective verbs of a chain are the verbs that each of its links holds.
use forgeguard.Base.{
  suc, ◌≡◌, ◌≢◌, ◌↔◌, ◌⊎◌, ◌++◌, refl, Bool, true, false, List, [], ◌∷◌, Option, none, some,
  contains, ◌==◌, arith, ==-eq, Bool-cases, inl, inr, subst, sym, All, length, contains-append, ap,
  ◌∙◌,
}
use forgeguard.Base.Sets.{to_set, intersection, contains-to_set, contains-intersection}
use forgeguard.Base.Result.{ok, ◌>>◌, ensure}
use forgeguard.Core.Error.{Error}
use forgeguard.Core.Segment.{segment_eq}
use forgeguard.Core.Verb.{Verb, verb_eq}
use forgeguard.Core.Fgrn.{Fgrn, resource, kind_eq, kind_beq_iff, fgrn_eq, fgrn_beq_iff}
use forgeguard.Core.Grant.{Grant, no_actions}
use forgeguard.Core.PrincipalSet.{PrincipalSet}
use forgeguard.Core.Delegation.{
  Visit-cases, answer, walk, set_contains, EffectiveScopeQuery, reaches, granted, verbs_held,
  effective, effective_verbs,
}
use forgeguard.Core.Delegation.Search.{InSet}
use forgeguard.Core.Delegation.Search.Sound.{walk-finds}
use forgeguard.Core.Delegation.Search.Fuel.{walk-Ended, Ended}
use forgeguard.Core.Delegation.Search.Complete.{passed-none}

-- `set_contains` always ends, whatever cycles the sets have, and says whether the principal is a
-- member of the set, directly or through member sets that are loaded.
pub set_contains_iff :
    (sets : List PrincipalSet) (set_fgrn who : Fgrn)
    → (b : Bool) × (set_contains sets set_fgrn who ≡ some b)
      × ((b ≡ true) ↔ InSet sets who set_fgrn)
unfolding set_contains
set_contains_iff sets set_fgrn who =
    elim (Visit-cases (walk sets who (suc (length sets)) set_fgrn [])) [
      | inl (w, e) ↦ (
        true,
        ap answer e,
        ((λ h. walk-finds sets who (suc (length sets)) set_fgrn [] w e), λ h. refl),
      )
      | inr (inl (w, e)) ↦ (
        false,
        ap answer e,
        ((λ h. cc), λ h. absurd (passed-none sets who (suc (length sets)) set_fgrn w e h)),
      )
      | inr (inr e) ↦ absurd (
          subst (Ended sets who []) e
            (walk-Ended sets who (suc (length sets)) set_fgrn [] (refl, refl) (omega arith)))
    ]

-- The grant is on the resource of the query, goes to the link, and carries the verb.
abbrev pub Gives : EffectiveScopeQuery → Fgrn → Verb → Grant → Type 0
Gives query link v g =
    (g.resource ≡ query.resource)
    × ((g.to ≡ link) ⊎ InSet query.sets link g.to)
    × (contains g.actions v ≡ true)

abbrev pub GivenBy : EffectiveScopeQuery → Fgrn → Verb → List Grant → Type 0
GivenBy query link v [] = ⊥
GivenBy query link v (g ∷ grants) = Gives query link v g ⊎ GivenBy query link v grants

-- The link holds the verb: some grant of the query gives it.
abbrev pub Holds : EffectiveScopeQuery → Verb → Fgrn → Type 0
Holds query v link = GivenBy query link v query.grants

module _ (query : EffectiveScopeQuery) (link : Fgrn) where
  reaches_iff :
      (g : Grant)
      → (b : Bool) × (reaches query link g ≡ some b)
        × ((b ≡ true) ↔ ((g.to ≡ link) ⊎ InSet query.sets link g.to))
  unfolding reaches
  reaches_iff g = elim (Bool-cases (g.to == link)) [
    | inl e ↦ (true, rw e refl, ((λ h. inl (==-eq g.to link e)), λ h. refl))
    | inr n ↦
        let (b, run, iff) = set_contains_iff query.sets g.to link in
        (
          b,
          rw n run,
          (
            (λ h. inr (iff.0 h)),
            λ h. elim h [ inl e ↦ ground (arith, fgrn_beq_iff g.to link) | inr i ↦ iff.1 i ],
          ),
        )
  ]

  granted_iff :
      (grants : List Grant)
      → (verbs : List Verb) × (granted query link grants ≡ some verbs)
        × ((v : Verb) → (contains verbs v ≡ true) ↔ GivenBy query link v grants)
  unfolding granted
  granted_iff [] = ([], refl, λ v. ground arith)
  granted_iff (g ∷ grants) =
      let (verbs, run, iff) = granted_iff grants in
      let (b, reach, iff') = reaches_iff g in
      elim (Bool-cases (g.resource == query.resource)) [
        | inr n ↦ (
          verbs,
          rw (n, granted) run,
          λ v. (
            (λ h. inr ((iff v).0 h)),
            λ h. elim h [
              | inl here ↦ absurd (ground (arith, fgrn_beq_iff g.resource query.resource))
              | inr later ↦ (iff v).1 later
            ],
          ),
        )
        | inl y ↦ given g grants verbs run iff b reach iff' y
      ]
    where
      given :
          (g : Grant) (grants : List Grant) (verbs : List Verb)
          → granted query link grants ≡ some verbs
          → ((v : Verb) → (contains verbs v ≡ true) ↔ GivenBy query link v grants)
          → (b : Bool) → reaches query link g ≡ some b
          → ((b ≡ true) ↔ ((g.to ≡ link) ⊎ InSet query.sets link g.to))
          → (g.resource == query.resource) ≡ true
          → (verbs : List Verb) × (granted query link (g ∷ grants) ≡ some verbs)
            × ((v : Verb) → (contains verbs v ≡ true) ↔ GivenBy query link v (g ∷ grants))
      given g grants verbs run iff false reach iff' y = (
        verbs,
        rw (y, reach, granted) run,
        λ v. (
          (λ h. inr ((iff v).0 h)),
          λ h. elim h [ inl here ↦ cc (iff'.1 here.1) | inr later ↦ (iff v).1 later ],
        ),
      )
      given g grants verbs run iff true reach iff' y = (
        g.actions ++ verbs,
        rw (y, reach, granted) (rw run refl),
        λ v. (
          λ h. elim (Bool-cases (contains g.actions v)) [
            | inl c ↦ inl (==-eq g.resource query.resource y, iff'.0 refl, c)
            | inr n ↦ inr ((iff v).0 (ground (arith, contains-append g.actions verbs v)))
          ],
          λ h. elim h [
            | inl here ↦ ground (arith, contains-append g.actions verbs v, here.2)
            | inr later ↦ ground (arith, contains-append g.actions verbs v, (iff v).1 later)
          ],
        ),
      )

-- What a link holds is known.
verbs_held_iff :
    (query : EffectiveScopeQuery) (link : Fgrn)
    → (verbs : List Verb) × (verbs_held link query ≡ some verbs)
      × ((v : Verb) → (contains verbs v ≡ true) ↔ Holds query v link)
unfolding verbs_held
verbs_held_iff query link =
    let (verbs, run, iff) = granted_iff query link query.grants in
    (
      to_set verbs,
      rw (run, verbs_held) refl,
      λ v. subst (λ b. (b ≡ true) ↔ Holds query v link) (sym (contains-to_set verbs v)) (iff v),
    )

-- What is left of the verbs so far after the links.
abbrev Left : EffectiveScopeQuery → List Verb → List Fgrn → Verb → Type 0
Left query verbs links v = (contains verbs v ≡ true) × All (Holds query v) links

-- The loop goes on from `next` and ends with `links` done.
abbrev Ends : EffectiveScopeQuery → List Verb → List Fgrn → Option (List Verb) → Type 0
Ends query next links result =
    (verbs : List Verb) × (result ≡ some verbs)
    × ((v : Verb) → (contains verbs v ≡ true) ↔ Left query next links v)

-- Breaking once nothing is left changes nothing.
break_or_go :
    (query : EffectiveScopeQuery) (next : List Verb) (links : List Fgrn)
    → Ends query next links (effective query links (some next))
    → Ends query next links
        (elim (no_actions next) [ true ↦ some next | false ↦ effective query links (some next) ])
break_or_go query [] links ends = ([], refl, λ v. ((λ h. cc), λ h. h.0))
break_or_go query (x ∷ next) links ends = ends

Ends-narrow :
    (query : EffectiveScopeQuery) (link : Fgrn) (before held : List Verb) (links : List Fgrn)
    (result : Option (List Verb))
    → ((v : Verb) → (contains held v ≡ true) ↔ Holds query v link)
    → Ends query (intersection before held) links result
    → Ends query before (link ∷ links) result
Ends-narrow query link before held links result iff (verbs, run, iff') = (
  verbs,
  run,
  λ v. (
    (λ h.
        let (c, rest) = (iff' v).0 h in
        let both = subst (λ b. b ≡ true) (contains-intersection before held v) c in
        (ground arith, ((iff v).0 (ground arith), rest))),
    λ (c, (here, rest)).
        let k = (iff v).1 here in
        (iff' v).1 (ground (arith, contains-intersection before held v), rest),
  ),
)

effective-some :
    (query : EffectiveScopeQuery) (links : List Fgrn) (before : List Verb)
    → Ends query before links (effective query links (some before))
unfolding effective
effective-some query [] before = (before, refl, λ v. ((λ h. (h, tt)), λ h. h.0))
effective-some query (link ∷ links) before =
    let (held, run, iff) = verbs_held_iff query link in
    rw (run, effective)
      (Ends-narrow query link before held links _ iff (
        break_or_go query (intersection before held) links
          (effective-some query links (intersection before held))))

effective_first :
    (query : EffectiveScopeQuery) (links : List Fgrn)
    → links ≢ []
    → (verbs : List Verb) × (effective query links none ≡ some verbs)
      × ((v : Verb) → (contains verbs v ≡ true) ↔ All (Holds query v) links)
unfolding effective
effective_first query [] n = absurd (n refl)
effective_first query (link ∷ links) n =
    let (held, run, iff) = verbs_held_iff query link in
    let (verbs, run', iff') = break_or_go query held links (effective-some query links held) in
    (
      verbs,
      rw (run, effective) run',
      λ v. (
        (λ h. let (c, rest) = (iff' v).0 h in ((iff v).0 c, rest)),
        λ (here, rest). (iff' v).1 ((iff v).1 here, rest),
      ),
    )

-- Of a chain on a resource, the effective verbs are found, and they are just the verbs that every
-- link of the chain holds by some grant on that resource.
pub effective_verbs_iff :
    (query : EffectiveScopeQuery)
    → query.resource.kind ≡ resource
    → query.chain.links ≢ []
    → (verbs : List Verb) × (effective_verbs query ≡ ok (some verbs))
      × ((v : Verb) → (contains verbs v ≡ true) ↔ All (Holds query v) query.chain.links)
unfolding effective_verbs
effective_verbs_iff query k n =
    let (verbs, run, iff) = effective_first query query.chain.links n in
    (
      verbs,
      ap
            (λ b.
              ensure b
                (Error.grant query.resource.raw "effective scope resource must have kind resource")
              >> ok (effective query query.chain.links none))
            ((kind_beq_iff query.resource.kind resource).1 k)
          ∙ ap ok run,
      iff,
    )
