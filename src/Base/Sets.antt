-- ===== src/Base/Sets.antt =====
-- Sets as lists without repetition: what the program's `BTreeSet` and `HashSet` do, but for the
-- order of iteration.
use forgeguard.Base.Tests.{if◌then◌else◌}
use forgeguard.Base.Lists.{filter, all}
use forgeguard.Base.Equality.{Eq, ◌==◌, contains}
use mathlib.Core.Path.{◌≡◌, refl}
use mathlib.Core.Bool.{Bool, true, ◌&&◌, ◌||◌, not}
use mathlib.Core.List.{List, [], ◌∷◌}
use native.Mathlib.Omega.{arith}

module _ {ℓ} {A : Type ℓ} ⦃e : Eq A⦄ where
  unfoldable pub insert_set : A → List A → List A
  insert_set a xs = if contains xs a then xs else a ∷ xs

  -- `collect` into a set.
  unfoldable pub to_set : List A → List A
  unfolding insert_set
  to_set [] = []
  to_set (x ∷ xs) = insert_set x (to_set xs)

  unfoldable pub intersection : List A → List A → List A
  intersection xs ys = filter (contains ys) xs

  unfoldable pub remove_set : A → List A → List A
  remove_set a xs = filter (λ x. not (x == a)) xs

  pub contains-insert_set :
      (a b : A) (xs : List A) → contains (insert_set a xs) b ≡ (b == a || contains xs b)
  unfolding insert_set
  contains-insert_set a b xs = ground (arith, e.beq_iff b a)

  pub contains-to_set : (xs : List A) (a : A) → contains (to_set xs) a ≡ contains xs a
  unfolding to_set
  contains-to_set [] a = refl
  contains-to_set (x ∷ xs) a =
      ground (arith, contains-insert_set x a (to_set xs), contains-to_set xs a)

  pub contains-filter :
      (p : A → Bool) (xs : List A) (a : A) → contains (filter p xs) a ≡ (contains xs a && p a)
  contains-filter p [] a = refl
  contains-filter p (x ∷ xs) a = ground (arith, e.beq_iff a x, contains-filter p xs a)

  pub contains-intersection :
      (xs ys : List A) (a : A) → contains (intersection xs ys) a ≡ (contains xs a && contains ys a)
  unfolding intersection
  contains-intersection xs ys a = contains-filter (contains ys) xs a

  pub contains-remove_set :
      (a b : A) (xs : List A) → contains (remove_set a xs) b ≡ (contains xs b && not (b == a))
  unfolding remove_set
  contains-remove_set a b xs = contains-filter (λ x. not (x == a)) xs b

  -- What is in a list passes a test that all its elements pass.
  pub of_all :
      (p : A → Bool) (xs : List A) (a : A) → all p xs ≡ true → contains xs a ≡ true → p a ≡ true
  of_all p [] a h c = cc
  of_all p (x ∷ xs) a h c = ground (arith, e.beq_iff a x, of_all p xs a)
