-- ===== src/Core/Forest/Climb.antt =====
-- The loops that climb a forest end, and find what the parent edges say.
use forgeguard.Base.{
  ℕ, zero, suc, ◌≤◌, ◌≡◌, ◌⊎◌, refl, true, List, ◌∷◌, Option, none, some, Eq, ◌==◌, arith, contains,
  subst, sym, Bool-cases, inl, inr,
}
use forgeguard.Base.Assoc.{lookup, contains_key, lookup_of_contains_key}
use forgeguard.Core.Forest.{
  ended, climbs, walk_up, Depth, Reaches, PathTo, IsClosed, IsGrounded, IsBelow,
}

module _ {ℓ} {K : Type ℓ} ⦃e : Eq K⦄ (m : List (K × Option K)) where
  -- A key whose climb ends is grounded, where every parent is a key.
  pub IsGrounded-of_climbs :
      IsClosed m → (n : ℕ) (k : K) → contains_key m k ≡ true → climbs m n k ≡ true → IsGrounded m k
  unfolding climbs
  IsGrounded-of_climbs closed zero k c h =
      let (v, found) = lookup_of_contains_key m k c in go v found
    where
      go : (v : Option K) → lookup k m ≡ some v → IsGrounded m k
      go none found = (zero, found)
      go (some p) found = cc (rw (found, climbs) at h)
  IsGrounded-of_climbs closed (suc n) k c h =
      let (v, found) = lookup_of_contains_key m k c in
      go (λ (p : K). IsGrounded-of_climbs closed n p) v found
    where
      go :
          ((p : K) → contains_key m p ≡ true → climbs m n p ≡ true → IsGrounded m p)
          → (v : Option K) → lookup k m ≡ some v
          → IsGrounded m k
      go ih none found = (zero, found)
      go ih (some p) found =
          let (i, d) = ih p (closed k p found) (rw (found, climbs) at h) in (suc i, (p, found, d))

  pub climbs_of_Depth : (i n : ℕ) (k : K) → Depth m i k → i ≤ n → climbs m n k ≡ true
  unfolding climbs
  climbs_of_Depth zero zero k d le = rw (d, climbs)
  climbs_of_Depth zero (suc n) k d le = rw (d, climbs)
  climbs_of_Depth (suc i) zero k d le = absurd (omega arith)
  climbs_of_Depth (suc i) (suc n) k (p, found, d) le =
      rw (found, climbs) (climbs_of_Depth i n p d (omega arith))

  -- With enough fuel the loop of `path` ends, and its list is the path from the top.
  pub walk_up-PathTo :
      IsClosed m
      → (i fuel : ℕ) (k : K) (rest : List K) → Depth m i k
      → i ≤ fuel
      → (path : List K) × (walk_up m fuel k (k ∷ rest) ≡ ended path) × PathTo m i k path rest
  unfolding walk_up
  walk_up-PathTo closed zero zero k rest d le = (k ∷ rest, rw (d, walk_up), (d, refl))
  walk_up-PathTo closed zero (suc fuel) k rest d le = (k ∷ rest, rw (d, walk_up), (d, refl))
  walk_up-PathTo closed (suc i) zero k rest d le = absurd (omega arith)
  walk_up-PathTo closed (suc i) (suc fuel) k rest (p, found, d) le =
      let (path, run, to) = walk_up-PathTo closed i fuel p (k ∷ rest) d (omega arith) in
      (path, rw (found, walk_up) (rw (closed k p found, walk_up) run), (p, found, to))

  below_top : (k a : K) → lookup k m ≡ some none → IsBelow m k a → k ≡ a
  below_top k a top (zero, same) = same
  below_top k a top (suc n, (p, found, _)) = cc

  below_step : (k p a : K) → lookup k m ≡ some (some p) → IsBelow m k a → (k ≡ a) ⊎ IsBelow m p a
  below_step k p a found (zero, same) = inl same
  below_step k p a found (suc n, (q, found', r)) =
      let same : q ≡ p = cc in inr (n, subst (λ x. Reaches m n x a) same r)

  -- The path holds just what is at or above the key, and what follows it.
  pub IsBelow_of_contains :
      (i : ℕ) (k a : K) (path rest : List K)
      → PathTo m i k path rest
      → contains path a ≡ true
      → IsBelow m k a ⊎ (contains rest a ≡ true)
  IsBelow_of_contains zero k a path rest (top, same) c = elim (Bool-cases (a == k)) [
    | inl s ↦ inl (zero, sym ((e.beq_iff a k).0 s))
    | inr s ↦ inr (ground arith)
  ]
  IsBelow_of_contains (suc i) k a path rest (p, found, to) c =
      elim (IsBelow_of_contains i p a path (k ∷ rest) to c) [
        | inl (n, r) ↦ inl (suc n, (p, found, r))
        | inr c' ↦ elim (Bool-cases (a == k)) [
          | inl s ↦ inl (zero, sym ((e.beq_iff a k).0 s))
          | inr s ↦ inr (ground arith)
        ]
      ]

  pub contains_of_rest :
      (i : ℕ) (k a : K) (path rest : List K)
      → PathTo m i k path rest
      → contains rest a ≡ true
      → contains path a ≡ true
  contains_of_rest zero k a path rest (top, same) c = ground arith
  contains_of_rest (suc i) k a path rest (p, found, to) c =
      contains_of_rest i p a path (k ∷ rest) to (ground arith)

  pub contains_of_IsBelow :
      (i : ℕ) (k a : K) (path rest : List K)
      → PathTo m i k path rest
      → IsBelow m k a
      → contains path a ≡ true
  contains_of_IsBelow zero k a path rest (top, same) b =
      ground (arith, below_top k a top b, e.beq_iff a k)
  contains_of_IsBelow (suc i) k a path rest (p, found, to) b = elim (below_step k p a found b) [
    | inl s ↦ contains_of_rest i p a path (k ∷ rest) to (ground (arith, e.beq_iff a k))
    | inr b' ↦ contains_of_IsBelow i p a path (k ∷ rest) to b'
  ]
