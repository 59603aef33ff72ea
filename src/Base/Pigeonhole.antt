-- ===== src/Base/Pigeonhole.antt =====
-- Lists without repetition: they are no longer than a list that has all their elements.
use forgeguard.Base.Tests.{if◌then◌else◌}
use forgeguard.Base.Lists.{length, all}
use forgeguard.Base.Equality.{Eq, ◌==◌, contains, distinct, contains-append}
use Prim.Native.Nat.{◌+◌, ◌≤◌}
use mathlib.Core.Path.{◌≡◌, refl}
use mathlib.Core.Bool.{true, false}
use mathlib.Core.List.{List, [], ◌∷◌, ◌++◌}
use native.Mathlib.Omega.{arith}

module _ {ℓ} {A : Type ℓ} ⦃e : Eq A⦄ where
  -- Drops the first occurrence.
  erase : A → List A → List A
  erase a [] = []
  erase a (x ∷ xs) = if a == x then xs else x ∷ erase a xs

  length-erase : (a : A) (xs : List A) → contains xs a ≡ true → length (erase a xs) + 1 ≡ length xs
  unfolding erase
  length-erase a [] h = cc
  length-erase a (x ∷ xs) h = ground (arith, length-erase a xs)

  contains-erase :
      (a b : A) (xs : List A)
      → contains xs b ≡ true
      → (b == a) ≡ false
      → contains (erase a xs) b ≡ true
  unfolding erase
  contains-erase a b [] h n = cc
  contains-erase a b (x ∷ xs) h n =
      ground (arith, contains-erase a b xs, e.beq_iff a x, e.beq_iff b x, e.beq_iff b a)

  all-contains-erase :
      (a : A) (xs ys : List A)
      → all (contains ys) xs ≡ true
      → contains xs a ≡ false
      → all (contains (erase a ys)) xs ≡ true
  all-contains-erase a [] ys h n = refl
  all-contains-erase a (x ∷ xs) ys h n =
      ground
        (arith, all-contains-erase a xs ys, contains-erase a x ys, e.beq_iff a x, e.beq_iff x a)

  pub length-le-of_distinct :
      (xs ys : List A) → distinct xs ≡ true → all (contains ys) xs ≡ true → length xs ≤ length ys
  length-le-of_distinct [] ys d h = omega arith
  length-le-of_distinct (x ∷ xs) ys d h =
      ground (
        arith,
        length-le-of_distinct xs (erase x ys),
        length-erase x ys,
        all-contains-erase x xs ys,
      )

  -- A new element at the end.
  pub distinct-append :
      (xs : List A) (a : A)
      → distinct xs ≡ true
      → contains xs a ≡ false
      → distinct (xs ++ a ∷ []) ≡ true
  distinct-append [] a d c = refl
  distinct-append (x ∷ xs) a d c =
      ground
        (arith, distinct-append xs a, contains-append xs (a ∷ []) x, e.beq_iff a x, e.beq_iff x a)
