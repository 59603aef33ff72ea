-- ===== src/Core/Forest/Edit.antt =====
-- Adding a leaf and moving a subtree keep a forest.
use forgeguard.Base.{
  ℕ, zero, suc, ◌≡◌, refl, true, false, List, Option, some, Eq, ◌==◌, arith, subst, ap, sym,
  Bool-cases, inl, inr,
}
use forgeguard.Base.Assoc.{lookup, insert, contains_key, lookup-insert, contains_key-insert}
use forgeguard.Core.Forest.{Depth, Reaches, IsClosed, IsGrounded, IsBelow}

module _ {ℓ} {K : Type ℓ} ⦃e : Eq K⦄ (m : List (K × Option K)) where
  lookup-insert_ne :
      (x k : K) (v : Option K) → (x == k) ≡ false → lookup k (insert x v m) ≡ lookup k m
  lookup-insert_ne x k v h = rw lookup-insert (rw h refl)

  lookup-insert_self : (x : K) (v : Option K) → lookup x (insert x v m) ≡ some v
  lookup-insert_self x v = rw lookup-insert (rw ((e.beq_iff x x).1 refl) refl)

  not_self : (x k : K) → ¬ IsBelow m k x → (x == k) ≡ false
  not_self x k free = elim (Bool-cases (x == k)) [
    | inl s ↦ absurd (free (zero, sym ((e.beq_iff x k).0 s)))
    | inr s ↦ s
  ]

  -- A key that climbs without meeting `x` climbs as before when `x` gets another parent.
  pub Depth-insert :
      (x : K) (v : Option K) (n : ℕ) (k : K)
      → Depth m n k
      → ¬ IsBelow m k x
      → Depth (insert x v m) n k
  Depth-insert x v zero k d free = rw (lookup-insert_ne x k v (not_self x k free)) d
  Depth-insert x v (suc n) k (p, found, d) free = (
    p,
    rw (lookup-insert_ne x k v (not_self x k free)) found,
    Depth-insert x v n p d (λ b. free (suc b.0, (p, found, b.1))),
  )

  -- A key that is not there is above no key that is there.
  pub not-IsBelow_new :
      (x : K)
      → contains_key m x ≡ false
      → IsClosed m
      → (n : ℕ) (k : K) → contains_key m k ≡ true
      → ¬ Reaches m n k x
  not-IsBelow_new x new closed zero k c same = cc (ap (contains_key m) same)
  not-IsBelow_new x new closed (suc n) k c (p, found, r) =
      not-IsBelow_new x new closed n p (closed k p found) r

  -- Once `x` has a parent that does not stand below it, every grounded key stays grounded.
  module _ (x new : K) (grounded : IsGrounded m new) (free : ¬ IsBelow m new x) where
    pub IsGrounded-moved : (k : K) → (x == k) ≡ true → IsGrounded (insert x (some new) m) k
    IsGrounded-moved k s = (
      suc grounded.0,
      (
        new,
        subst (λ y. lookup y (insert x (some new) m) ≡ some (some new)) ((e.beq_iff x k).0 s)
            (lookup-insert_self x (some new)),
        Depth-insert x (some new) grounded.0 new grounded.1 free,
      ),
    )

    pub IsGrounded-insert : (n : ℕ) (k : K) → Depth m n k → IsGrounded (insert x (some new) m) k
    IsGrounded-insert zero k d = elim (Bool-cases (x == k)) [
      | inl s ↦ IsGrounded-moved k s
      | inr s ↦ (zero, rw (lookup-insert_ne x k (some new) s) d)
    ]
    IsGrounded-insert (suc n) k (p, found, d) =
        let ih = IsGrounded-insert n p d in
        elim (Bool-cases (x == k)) [
          | inl s ↦ IsGrounded-moved k s
          | inr s ↦ (suc ih.0, (p, rw (lookup-insert_ne x k (some new) s) found, ih.1))
        ]

  pub IsClosed-insert :
      (x new : K) → contains_key m new ≡ true → IsClosed m → IsClosed (insert x (some new) m)
  IsClosed-insert x new c closed k p found =
      ground
        (arith, lookup-insert x k (some new) m, contains_key-insert x p (some new) m, closed k p)
