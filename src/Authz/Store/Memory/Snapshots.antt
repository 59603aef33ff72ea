-- ===== src/Authz/Store/Memory/Snapshots.antt =====
-- Revisions are snapshots: a write makes the next one and leaves the others as they were.
use forgeguard.Base.{
  ℕ, zero, suc, ◌+◌, ◌-◌, ◌≤◌, ◌<◌, ◌≡◌, refl, List, [], ◌∷◌, ◌++◌, none, some, length, last?,
  get_elem?, arith, length-append, ap, inl, inr, sym, ◌∙◌, Option-cases,
}
use forgeguard.Base.Result.{ok, Result-cases}
use forgeguard.Authz.Store.{ModelState, StoreWrite, written}
use forgeguard.Authz.Store.Slice.{select_slice}
use forgeguard.Authz.Store.Memory.{MemoryStore, SliceQuery, latest, slice, slice_at, apply}

-- An older element stays where it is.
get_elem?-append {ℓ} :
    {A : Type ℓ} (xs ys : List A) (i : ℕ) → i < length xs → get_elem? (xs ++ ys) i ≡ get_elem? xs i
get_elem?-append [] ys i h = absurd (omega arith)
get_elem?-append (x ∷ xs) ys zero h = refl
get_elem?-append (x ∷ xs) ys (suc i) h = get_elem?-append xs ys i (omega arith)

get_elem?-last {ℓ} :
    {A : Type ℓ} (xs : List A) (y : A) → get_elem? (xs ++ y ∷ []) (length xs) ≡ some y
get_elem?-last [] y = refl
get_elem?-last (x ∷ xs) y = get_elem?-last xs y

-- A write that succeeds: the new model comes after the others.
abbrev pub grown : MemoryStore → ModelState → MemoryStore
grown store next = record { history = store.history ++ next ∷ [] }

pub apply-grown :
    (store after : MemoryStore) (write : StoreWrite) (r : ℕ)
    → apply store write ≡ ok (after, r)
    → (last next : ModelState) × (last? store.history ≡ some last)
      × (written write last ≡ ok next)
      × (after ≡ grown store next)
      × (r ≡ latest store + 1)
unfolding apply latest
apply-grown store after write r h = elim (Option-cases (last? store.history)) [
  | inl e ↦ cc (rw (e, apply) at h)
  | inr (last, e) ↦ elim (Result-cases (written write last)) [
    | inr (x, f) ↦ cc (rw (e, f, apply) at h)
    | inl (next, f) ↦
        let same : (grown store next, length (store.history ++ next ∷ [])) ≡ (after, r) =
          ground arith in
        (
          last,
          next,
          e,
          f,
          sym (ap (λ (p : MemoryStore × ℕ). p.0) same),
          sym (ap (λ (p : MemoryStore × ℕ). p.1) same)
              ∙ omega (arith, length-append store.history (next ∷ [])),
        )
  ]
]

slice-grown :
    (store : MemoryStore) (next : ModelState) (query : SliceQuery) (n : ℕ)
    → query.revision ≡ some n
    → 0 < n
    → n ≤ latest store
    → slice (grown store next) query ≡ slice store query
unfolding slice slice_at latest
slice-grown store next query n q lo hi = ground (
  arith,
  get_elem?-append store.history (next ∷ []) (n - 1) (omega arith),
  length-append store.history (next ∷ []),
)

slice-latest :
    (store : MemoryStore) (next : ModelState) (query : SliceQuery)
    → query.revision ≡ none
    → slice (grown store next) query
      ≡ select_slice next query.principal query.resource (latest store + 1)
unfolding slice slice_at latest
slice-latest store next query q =
    ground (arith, get_elem?-last store.history next, length-append store.history (next ∷ []))

-- A write that succeeds returns the next revision, which is then the latest. A slice at an older
-- revision is what it was, and a slice at the latest one is selected from the model that the write
-- made of the last one.
pub apply-slice :
    (store after : MemoryStore) (write : StoreWrite) (r : ℕ)
    → apply store write ≡ ok (after, r)
    → (r ≡ latest store + 1)
      × (latest after ≡ r)
      × ((query : SliceQuery) (n : ℕ)
          → query.revision ≡ some n
          → 0 < n
          → n ≤ latest store
          → slice after query ≡ slice store query)
      × ((last next : ModelState) × (last? store.history ≡ some last)
          × (written write last ≡ ok next)
          × ((query : SliceQuery)
              → query.revision ≡ none
              → slice after query ≡ select_slice next query.principal query.resource r))
unfolding latest
apply-slice store after write r h =
    let (last, next, e, f, a, s) = apply-grown store after write r h in
    (
      s,
      ap (λ (x : MemoryStore). length x.history) a
          ∙ omega (arith, length-append store.history (next ∷ [])),
      (λ query n q lo hi. ap (λ x. slice x query) a ∙ slice-grown store next query n q lo hi),
      (
        last,
        next,
        e,
        f,
        λ query q.
            ap (λ x. slice x query) a
            ∙ slice-latest store next query q
            ∙ ap (select_slice next query.principal query.resource) (sym s),
      ),
    )
