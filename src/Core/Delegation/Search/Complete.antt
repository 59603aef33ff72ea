-- ===== src/Core/Delegation/Search/Complete.antt =====
-- What is there is found: a walk that passes by has seen everything below.
use forgeguard.Base.{
  ℕ, zero, suc, ◌≡◌, ◌⊎◌, true, false, List, [], ◌∷◌, none, some, contains, ◌==◌, arith, ==_refl,
  ==-eq, Bool-cases, Option-cases, inl, inr, find_sound, subst, sym,
}
use forgeguard.Core.Fgrn.{Fgrn, fgrn_eq}
use forgeguard.Core.PrincipalSet.{PrincipalSet, has_member}
use forgeguard.Core.Delegation.{Visit, passed, find_set, set_members, any_member, walk, Visit-cases}
use forgeguard.Core.Delegation.Search.{InSet, direct, nested}

module _ (sets : List PrincipalSet) (who : Fgrn) where
  -- Not loaded, or visited.
  abbrev Known : List Fgrn → Fgrn → Type 0
  Known v m = (find_set sets m ≡ none) ⊎ (contains v m ≡ true)

  abbrev Sub : List Fgrn → List Fgrn → Type 0
  Sub v w = (n : Fgrn) → contains v n ≡ true → contains w n ≡ true

  -- The set does not have the member, and its own sets are known.
  abbrev Finished : List Fgrn → Fgrn → Type 0
  Finished w n =
      (set : PrincipalSet)
      → find_set sets n ≡ some set
      → (has_member set who ≡ false)
        × ((m : Fgrn) → contains (set_members set) m ≡ true → Known w m)

  abbrev Explored : List Fgrn → List Fgrn → Type 0
  Explored v w = (n : Fgrn) → contains w n ≡ true → (contains v n ≡ true) ⊎ Finished w n

  Known-mono : (v w : List Fgrn) (m : Fgrn) → Sub v w → Known v m → Known w m
  Known-mono v w m s (inl h) = inl h
  Known-mono v w m s (inr h) = inr (s m h)

  Finished-mono : (v w : List Fgrn) (n : Fgrn) → Sub v w → Finished v n → Finished w n
  Finished-mono v w n s f set e = ((f set e).0, λ m c. Known-mono v w m s ((f set e).1 m c))

  Explored-trans : (u v w : List Fgrn) → Sub v w → Explored u v → Explored v w → Explored u w
  Explored-trans u v w s f g n c = elim (g n c) [
    | inr done ↦ inr done
    | inl cv ↦ elim (f n cv) [ inl cu ↦ inl cu | inr done ↦ inr (Finished-mono v w n s done) ]
  ]

  -- A walk from `f` that passed by.
  abbrev Passed : List Fgrn → List Fgrn → Type 0
  Passed v w = Sub v w × Explored v w

  any_member-Passed :
      (step : Fgrn → List Fgrn → Visit)
      (pass : (m : Fgrn) (v w : List Fgrn) → step m v ≡ passed w → Passed v w × Known w m)
      (ms v w : List Fgrn)
      → any_member step ms v ≡ passed w
      → Passed v w × ((m : Fgrn) → contains ms m ≡ true → Known w m)
  unfolding any_member
  any_member-Passed step pass [] v w h =
      let same : v ≡ w = ground arith in
      (subst (Passed v) same ((λ n c. c), λ n c. inl c), λ m c. cc)
  any_member-Passed step pass (m ∷ ms) v w h = elim (Visit-cases (step m v)) [
    | inl (u, e) ↦ cc (rw (e, any_member) at h)
    | inr (inr e) ↦ cc (rw (e, any_member) at h)
    | inr (inl (u, e)) ↦
        let ((s, x), k) = pass m v u e in
        let ((s', x'), ks) = any_member-Passed step pass ms u w (rw (e, any_member) at h) in
        (
          ((λ n c. s' n (s n c)), Explored-trans v u w s' x x'),
          λ n c. elim (Bool-cases (n == m)) [
            | inl q ↦ subst (Known w) (sym (==-eq n m q)) (Known-mono u w m s' k)
            | inr q ↦ ks n (rw q at c)
          ],
        )
  ]

  visits :
      (set : PrincipalSet) (f : Fgrn) (v w : List Fgrn)
      → find_set sets f ≡ some set
      → set.fgrn ≡ f
      → Sub v w
      → Sub (set.fgrn ∷ v) w
      → Explored (set.fgrn ∷ v) w
      → (has_member set who ≡ false)
        × ((m : Fgrn) → contains (set_members set) m ≡ true → Known w m)
      → Passed v w × Known w f
  visits set f v w e same sv s x done = (
    (
      sv,
      λ n c. elim (x n c) [
        | inr other ↦ inr other
        | inl cn ↦ elim (Bool-cases (n == set.fgrn)) [
          | inr q ↦ inl (rw q at cn)
          | inl q ↦ inr (λ set' e'.
              let here : some set ≡ some set' = cc (e, e', same, ==-eq n set.fgrn q) in
              let one : set ≡ set' = ground arith in
              subst
                (λ t.
                  (has_member t who ≡ false)
                  × ((m : Fgrn) → contains (set_members t) m ≡ true → Known w m))
                one done)
        ]
      ],
    ),
    inr (subst (λ n. contains w n ≡ true) same (s set.fgrn (ground (arith, ==_refl set.fgrn)))),
  )

  pub walk-Passed :
      (fuel : ℕ) (f : Fgrn) (v w : List Fgrn)
      → walk sets who fuel f v ≡ passed w
      → Passed v w × Known w f
  unfolding walk
  walk-Passed zero f v w h = cc
  walk-Passed (suc fuel) f v w h = elim (Option-cases (find_set sets f)) [
    | inl e ↦ stays v w f (ground arith) (inl e)
    | inr (set, e) ↦
        let same : set.fgrn ≡ f = ==-eq set.fgrn f (find_sound (λ s. s.fgrn == f) sets e) in
        elim (Bool-cases (contains v set.fgrn)) [
          | inl c ↦ stays v w f (ground arith) (inr (rw same at c))
          | inr c ↦ elim (Bool-cases (has_member set who)) [
            | inl d ↦ cc (rw (e, c, d, walk) at h)
            | inr d ↦
                let ((s, x), ks) =
                  any_member-Passed (λ m v. walk sets who fuel m v)
                    (λ m u u'. walk-Passed fuel m u u') (set_members set) (set.fgrn ∷ v) w
                    (rw (e, c, d, walk) at h) in
                visits set f v w e same (λ n c. s n (ground arith)) s x (d, ks)
          ]
        ]
  ]
    where
      stays : (v w : List Fgrn) (f : Fgrn) → v ≡ w → Known v f → Passed v w × Known w f
      stays v w f e k = subst (λ u. Passed v u × Known u f) e (((λ n c. c), λ n c. inl c), k)

  -- Nothing is below what is known, once all that is visited is finished.
  never :
      (w : List Fgrn)
      → ((n : Fgrn) → contains w n ≡ true → Finished w n)
      → (f : Fgrn) → Known w f
      → InSet sets who f
      → ⊥
  never w all f (inl absent) (direct set e h) = cc
  never w all f (inr c) (direct set e h) = cc ((all f c set e).0, h)
  never w all f (inl absent) (nested set m e c i) = cc
  never w all f (inr k) (nested set m e c i) = never w all m ((all f k set e).1 m c) i

  -- A walk from the start that passes by has no member to find.
  pub passed-none :
      (fuel : ℕ) (f : Fgrn) (w : List Fgrn)
      → walk sets who fuel f [] ≡ passed w
      → InSet sets who f
      → ⊥
  passed-none fuel f w h i =
      let ((s, x), k) = walk-Passed fuel f [] w h in
      never w (λ n c. elim (x n c) [ inl no_such ↦ cc | inr done ↦ done ]) f k i
