-- ===== src/Core/Forest/Depth.antt =====
-- A key has one depth, and in a forest the depth is below the number of keys.
use forgeguard.Base.{
  ℕ, zero, suc, ◌+◌, ◌≤◌, ◌<◌, ◌≡◌, refl, true, List, [], ◌∷◌, Option, none, some, Eq, ◌==◌, arith,
  contains, distinct, all, length, subst, ap, Bool-cases, inl, inr, sym,
}
use forgeguard.Base.Assoc.{lookup, contains_key, keys, contains_key_of_lookup, length-keys}
use forgeguard.Base.Pigeonhole.{length-le-of_distinct}
use forgeguard.Core.Forest.{Depth}

module _ {ℓ} {K : Type ℓ} ⦃e : Eq K⦄ (m : List (K × Option K)) where
  pub Depth-unique : (i j : ℕ) (k : K) → Depth m i k → Depth m j k → i ≡ j
  Depth-unique zero zero k g h = refl
  Depth-unique zero (suc j) k g (p, h, _) = cc
  Depth-unique (suc i) zero k (p, g, _) h = cc
  Depth-unique (suc i) (suc j) k (p, g, gs) (q, h, hs) =
      let same : q ≡ p = cc in ap suc (Depth-unique i j p gs (subst (λ x. Depth m j x) same hs))

  pub contains_key_of_Depth : (n : ℕ) (k : K) → Depth m n k → contains_key m k ≡ true
  contains_key_of_Depth zero k h = contains_key_of_lookup m k h
  contains_key_of_Depth (suc n) k (p, h, _) = contains_key_of_lookup m k h

  -- The keys above `k`, with `k` first.
  chain : (n : ℕ) (k : K) → Depth m n k → List K
  chain zero k h = k ∷ []
  chain (suc n) k (p, h, hs) = k ∷ chain n p hs

  length-chain : (n : ℕ) (k : K) (h : Depth m n k) → length (chain n k h) ≡ n + 1
  unfolding chain
  length-chain zero k h = omega arith
  length-chain (suc n) k (p, h, hs) = omega (arith, length-chain n p hs)

  all-chain : (n : ℕ) (k : K) (h : Depth m n k) → all (contains (keys m)) (chain n k h) ≡ true
  unfolding chain
  all-chain zero k h = ground (arith, contains_key_of_lookup m k h)
  all-chain (suc n) k (p, h, hs) = ground (arith, contains_key_of_lookup m k h, all-chain n p hs)

  -- What stands in the chain of a key is no deeper.
  Depth-of-chain :
      (n : ℕ) (k x : K) (h : Depth m n k)
      → contains (chain n k h) x ≡ true
      → (i : ℕ) × (i ≤ n) × Depth m i x
  unfolding chain
  Depth-of-chain zero k x h c = elim (Bool-cases (x == k)) [
    | inl s ↦ (zero, omega arith, subst (λ y. lookup y m ≡ some none) (sym ((e.beq_iff x k).0 s)) h)
    | inr s ↦ absurd (ground arith)
  ]
  Depth-of-chain (suc n) k x (p, h, hs) c = elim (Bool-cases (x == k)) [
    | inl s ↦
        (suc n, omega arith, subst (λ y. Depth m (suc n) y) (sym ((e.beq_iff x k).0 s)) (p, h, hs))
    | inr s ↦ let (i, le, d) = Depth-of-chain n p x hs (ground arith) in (i, omega arith, d)
  ]

  distinct-chain : (n : ℕ) (k : K) (h : Depth m n k) → distinct (chain n k h) ≡ true
  unfolding chain
  distinct-chain zero k h = refl
  distinct-chain (suc n) k (p, h, hs) = elim (Bool-cases (contains (chain n p hs) k)) [
    | inl c ↦
        let (i, le, d) = Depth-of-chain n p k hs c in
        let same = Depth-unique (suc n) i k (p, h, hs) d in absurd (omega arith)
    | inr c ↦ ground (arith, distinct-chain n p hs)
  ]

  pub Depth-lt-length : (n : ℕ) (k : K) → Depth m n k → n < length m
  Depth-lt-length n k h = omega (
    arith,
    length-le-of_distinct (chain n k h) (keys m) (distinct-chain n k h) (all-chain n k h),
    length-chain n k h,
    length-keys m,
  )
