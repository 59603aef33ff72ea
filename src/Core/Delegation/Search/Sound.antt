-- ===== src/Core/Delegation/Search/Sound.antt =====
-- What the walk finds is there.
use forgeguard.Base.{
  ℕ, zero, suc, ◌≡◌, true, List, [], ◌∷◌, contains, arith, ==_refl, Bool-cases, Option-cases, inl,
  inr,
}
use forgeguard.Core.Fgrn.{Fgrn, fgrn_eq}
use forgeguard.Core.PrincipalSet.{PrincipalSet, has_member}
use forgeguard.Core.Delegation.{Visit, found, find_set, set_members, any_member, walk, Visit-cases}
use forgeguard.Core.Delegation.Search.{InSet, direct, nested}

module _ (sets : List PrincipalSet) (who : Fgrn) where
  any_member-finds :
      (step : Fgrn → List Fgrn → Visit)
      (sound : (m : Fgrn) (v w : List Fgrn) → step m v ≡ found w → InSet sets who m)
      (ms v w : List Fgrn)
      → any_member step ms v ≡ found w
      → (m : Fgrn) × (contains ms m ≡ true) × InSet sets who m
  unfolding any_member
  any_member-finds step sound [] v w h = cc
  any_member-finds step sound (m ∷ ms) v w h = elim (Visit-cases (step m v)) [
    | inl (u, e) ↦ (m, ground (arith, ==_refl m), sound m v u e)
    | inr (inl (u, e)) ↦
        let (m', c, i) = any_member-finds step sound ms u w (rw (e, any_member) at h) in
        (m', ground arith, i)
    | inr (inr e) ↦ cc (rw (e, any_member) at h)
  ]

  pub walk-finds :
      (fuel : ℕ) (f : Fgrn) (v w : List Fgrn) → walk sets who fuel f v ≡ found w → InSet sets who f
  unfolding walk
  walk-finds zero f v w h = cc
  walk-finds (suc fuel) f v w h = elim (Option-cases (find_set sets f)) [
    | inl e ↦ cc (rw (e, walk) at h)
    | inr (set, e) ↦ elim (Bool-cases (contains v set.fgrn)) [
      | inl c ↦ cc (rw (e, c, walk) at h)
      | inr c ↦ elim (Bool-cases (has_member set who)) [
        | inl d ↦ direct set e d
        | inr d ↦
            let (m, here, i) =
              any_member-finds (λ m v. walk sets who fuel m v) (walk-finds fuel) (set_members set)
                (set.fgrn ∷ v) w (rw (e, c, d, walk) at h) in
            nested set m e here i
      ]
    ]
  ]
