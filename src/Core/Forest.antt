-- ===== src/Core/Forest.antt =====
-- Parent edges in a map, as `Spine` keeps them (crates/core/src/spine.rs): climbing to the top.
pub mod Depth
pub mod Climb
pub mod Edit
use forgeguard.Base.{ℕ, zero, suc, Bool, true, false, List, ◌∷◌, Option, none, some, Eq, ◌≡◌}
use forgeguard.Base.Assoc.{lookup, contains_key}

-- What a loop of the program may do besides returning: reach `unreachable!`, or not end within the
-- rounds that it is given here.
pub data Walk {ℓ} (A : Type ℓ) : Type ℓ where
  ended : A → Walk A
  missing : Walk A
  out_of_fuel : Walk A

module _ {ℓ} {K : Type ℓ} ⦃e : Eq K⦄ where
  -- `while let Some(Some(parent)) = map.get(current)`, counting the moves: whether the loop ends
  -- before it makes more than `steps` moves.
  unfoldable pub climbs : List (K × Option K) → ℕ → K → Bool
  climbs m zero current = elim (lookup current m) [ some (some parent) ↦ false | _ ↦ true ]
  climbs m (suc steps) current = elim (lookup current m) [
    | some (some parent) ↦ climbs m steps parent
    | _ ↦ true
  ]

  -- The loop of `path`. The list has what was pushed last in front: it is the vector reversed.
  unfoldable pub walk_up : List (K × Option K) → ℕ → K → List K → Walk (List K)
  walk_up m zero current path = elim (lookup current m) [
    | some (some parent) ↦ out_of_fuel
    | _ ↦ ended path
  ]
  walk_up m (suc fuel) current path = elim (lookup current m) [
    | some (some parent) ↦ elim (contains_key m parent) [
      | true ↦ walk_up m fuel parent (parent ∷ path)
      | false ↦ missing
    ]
    | _ ↦ ended path
  ]

  -- `k` reaches a key without a parent by `n` moves.
  abbrev pub Depth : List (K × Option K) → ℕ → K → Type ℓ
  Depth m zero k = lookup k m ≡ some none
  Depth m (suc n) k = (p : K) × (lookup k m ≡ some (some p)) × Depth m n p

  -- `k` reaches `a` by `n` moves.
  abbrev pub Reaches : List (K × Option K) → ℕ → K → K → Type ℓ
  Reaches m zero k a = k ≡ a
  Reaches m (suc n) k a = (p : K) × (lookup k m ≡ some (some p)) × Reaches m n p a

  -- `path` goes from the top down to `k`, which `n` moves reach from it, and on with `rest`.
  abbrev pub PathTo : List (K × Option K) → ℕ → K → List K → List K → Type ℓ
  PathTo m zero k path rest = (lookup k m ≡ some none) × (path ≡ k ∷ rest)
  PathTo m (suc n) k path rest =
      (p : K) × (lookup k m ≡ some (some p)) × PathTo m n p path (k ∷ rest)

  -- Every parent is a key.
  abbrev pub IsClosed : List (K × Option K) → Type ℓ
  IsClosed m = (k p : K) → lookup k m ≡ some (some p) → contains_key m p ≡ true

  -- `k` reaches the top.
  abbrev pub IsGrounded : List (K × Option K) → K → Type ℓ
  IsGrounded m k = (n : ℕ) × Depth m n k

  -- `a` is `k` or stands above it.
  abbrev pub IsBelow : List (K × Option K) → K → K → Type ℓ
  IsBelow m k a = (n : ℕ) × Reaches m n k a
