-- ===== src/Base/Assoc.antt =====
-- A map as an association list without repeated keys: what the program's `HashMap` and `BTreeMap`
-- do, but for the order of iteration.
use forgeguard.Base.Tests.{if◌then◌else◌, Bool-cases}
use forgeguard.Base.Lists.{length}
use forgeguard.Base.Equality.{Eq, ◌==◌, contains, distinct}
use mathlib.Core.Path.{◌≡◌, refl}
use mathlib.Core.Logic.{inl, inr}
use mathlib.Core.Bool.{Bool, true, false}
use mathlib.Core.List.{List, [], ◌∷◌, ◌++◌}
use mathlib.Core.Option.{Option, none, some}
use native.Mathlib.Omega.{arith}

module _ {ℓ κ} {K : Type ℓ} {V : Type κ} ⦃e : Eq K⦄ where
  unfoldable pub lookup : K → List (K × V) → Option V
  lookup key [] = none
  lookup key ((here, v) ∷ rest) = if here == key then some v else lookup key rest

  -- Replaces the value of a key that is there, and appends one that is not.
  unfoldable pub insert : K → V → List (K × V) → List (K × V)
  insert key new [] = (key, new) ∷ []
  insert key new ((here, old) ∷ rest) =
      if here == key then (here, new) ∷ rest else (here, old) ∷ insert key new rest

  unfoldable pub remove : K → List (K × V) → List (K × V)
  remove k [] = []
  remove k ((j, w) ∷ m) = if j == k then remove k m else (j, w) ∷ remove k m

  abbrev pub keys : List (K × V) → List K
  keys [] = []
  keys ((j, v) ∷ m) = j ∷ keys m

  abbrev pub contains_key : List (K × V) → K → Bool
  contains_key m k = contains (keys m) k

  pub lookup-insert :
      (k sought : K) (new : V) (rest : List (K × V))
      → lookup sought (insert k new rest) ≡ (if k == sought then some new else lookup sought rest)
  unfolding lookup insert
  lookup-insert k sought new [] = refl
  lookup-insert k sought new ((here, old) ∷ rest) = ground (
    arith,
    e.beq_iff here k,
    e.beq_iff k sought,
    e.beq_iff here sought,
    lookup-insert k sought new rest,
  )

  pub lookup-remove :
      (k j : K) (m : List (K × V)) → lookup j (remove k m) ≡ (if k == j then none else lookup j m)
  unfolding lookup remove
  lookup-remove k j [] = ground arith
  lookup-remove k j ((i, w) ∷ m) =
      ground (arith, e.beq_iff k j, e.beq_iff i k, e.beq_iff i j, lookup-remove k j m)

  -- A key that is there has a value, and the other way round.
  pub lookup_of_contains_key :
      (m : List (K × V)) (k : K) → contains_key m k ≡ true → (v : V) × (lookup k m ≡ some v)
  unfolding lookup
  lookup_of_contains_key [] k h = cc
  lookup_of_contains_key ((j, w) ∷ m) k h = elim (Bool-cases (j == k)) [
    | inl p ↦ (w, rw p)
    | inr p ↦ rw p (lookup_of_contains_key m k (ground (arith, e.beq_iff j k, e.beq_iff k j)))
  ]

  pub contains_key_of_lookup :
      (m : List (K × V)) (k : K) {v : V} → lookup k m ≡ some v → contains_key m k ≡ true
  unfolding lookup
  contains_key_of_lookup [] k h = cc
  contains_key_of_lookup ((j, w) ∷ m) k {v} h =
      ground (arith, e.beq_iff j k, e.beq_iff k j, contains_key_of_lookup m k {v = v})

  pub lookup_of_not_contains_key :
      (m : List (K × V)) (k : K) → contains_key m k ≡ false → lookup k m ≡ none
  unfolding lookup
  lookup_of_not_contains_key [] k h = refl
  lookup_of_not_contains_key ((j, w) ∷ m) k h =
      ground (arith, e.beq_iff j k, e.beq_iff k j, lookup_of_not_contains_key m k)

  pub contains_key-insert :
      (k j : K) (v : V) (m : List (K × V))
      → contains_key (insert k v m) j ≡ (if k == j then true else contains_key m j)
  unfolding insert
  contains_key-insert k j v [] = ground (arith, e.beq_iff j k, e.beq_iff k j)
  contains_key-insert k j v ((i, w) ∷ m) = ground (
    arith,
    e.beq_iff j k,
    e.beq_iff k j,
    e.beq_iff i k,
    e.beq_iff j i,
    contains_key-insert k j v m,
  )

  -- Inserting a key that is there leaves the keys as they are.
  pub keys-insert_of_mem :
      (k : K) (v : V) (m : List (K × V)) → contains_key m k ≡ true → keys (insert k v m) ≡ keys m
  unfolding insert
  keys-insert_of_mem k v [] h = cc
  keys-insert_of_mem k v ((i, w) ∷ m) h =
      ground (arith, e.beq_iff i k, e.beq_iff k i, keys-insert_of_mem k v m)

  -- Inserting a new key appends it.
  pub insert_new :
      (k : K) (v : V) (m : List (K × V))
      → contains_key m k ≡ false
      → insert k v m ≡ m ++ (k, v) ∷ []
  unfolding insert
  insert_new k v [] h = refl
  insert_new k v ((i, w) ∷ m) h = ground (arith, e.beq_iff i k, e.beq_iff k i, insert_new k v m)

  pub distinct-insert :
      (k : K) (v : V) (m : List (K × V))
      → distinct (keys m) ≡ true
      → distinct (keys (insert k v m)) ≡ true
  unfolding insert
  distinct-insert k v [] h = refl
  distinct-insert k v ((i, w) ∷ m) h =
      ground
        (arith, e.beq_iff i k, e.beq_iff k i, distinct-insert k v m, contains_key-insert k i v m)

  pub length-keys : (m : List (K × V)) → length (keys m) ≡ length m
  length-keys [] = refl
  length-keys ((j, w) ∷ m) = omega (arith, length-keys m)
