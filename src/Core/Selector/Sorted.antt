-- ===== src/Core/Selector/Sorted.antt =====
-- The order of what a selector resolves to.
use forgeguard.Base.{
  ℕ, Str, ◌≡◌, ◌≢◌, refl, ap, ◌∙◌, List, [], ◌∷◌, Option, none, some, ltb, if◌then◌else◌, arith,
  Bool-cases, inl, inr, subst, ◌==◌,
}
use forgeguard.Base.Result.{ok, ensure, >>=-eq-ok}
use forgeguard.Core.Error.{Error}
use forgeguard.Core.Segment.{segment_eq}
use forgeguard.Core.Fgrn.{Fgrn, FgrnKind}
use forgeguard.Core.Spine.{Spine, raised}
use forgeguard.Core.Selector.{Selector, SelectorScope, node, subtree, display}
use forgeguard.Core.Selector.Resolve.{
  Ordering, less, equal, greater, and_then, compare_bytes, compare_option, rank, compare_kind,
  segment_raw, id_raw, compare, put_sorted, sort, descend, gather, within, resolve,
}

abbrev pub swap : Ordering → Ordering
swap less = greater
swap equal = equal
swap greater = less

swap-and_then : (o p : Ordering) → swap (and_then o p) ≡ and_then (swap o) (swap p)
swap-and_then less p = refl
swap-and_then equal p = refl
swap-and_then greater p = refl

-- The two tests of a comparison, with their results exchanged.
swap-tests :
    (m n : ℕ) (o p : Ordering)
    → p ≡ swap o
    → (if ltb n m then less else if ltb m n then greater else p)
      ≡ swap (if ltb m n then less else if ltb n m then greater else o)
swap-tests m n o p e = elim (Bool-cases (ltb m n)) [
  | inl y ↦ elim (Bool-cases (ltb n m)) [ inl z ↦ ground arith | inr z ↦ rw (y, z) refl ]
  | inr y ↦ elim (Bool-cases (ltb n m)) [ inl z ↦ rw (y, z) refl | inr z ↦ rw (y, z) e ]
]

compare_bytes-swap : (s t : Str) → compare_bytes t s ≡ swap (compare_bytes s t)
compare_bytes-swap [] [] = refl
compare_bytes-swap [] (b ∷ t) = refl
compare_bytes-swap (a ∷ s) [] = refl
compare_bytes-swap (a ∷ s) (b ∷ t) =
    swap-tests a b (compare_bytes s t) (compare_bytes t s) (compare_bytes-swap s t)

compare_option-swap : (s t : Option Str) → compare_option t s ≡ swap (compare_option s t)
compare_option-swap none none = refl
compare_option-swap none (some t) = refl
compare_option-swap (some s) none = refl
compare_option-swap (some s) (some t) = compare_bytes-swap s t

compare_kind-swap : (j k : FgrnKind) → compare_kind k j ≡ swap (compare_kind j k)
compare_kind-swap j k = swap-tests (rank j) (rank k) equal equal refl

and_then-swap :
    (o p o' p' : Ordering) → o' ≡ swap o → p' ≡ swap p → and_then o' p' ≡ swap (and_then o p)
and_then-swap less p o' p' e e' = rw (e) refl
and_then-swap equal p o' p' e e' = rw (e) e'
and_then-swap greater p o' p' e e' = rw (e) refl

compare-swap : (a b : Fgrn) → compare b a ≡ swap (compare a b)
unfolding compare
compare-swap a b =
    and_then-swap _ _ _ _ (compare_bytes-swap a.organization.raw b.organization.raw) (
      and_then-swap _ _ _ _ (compare_kind-swap a.kind b.kind) (
        and_then-swap _ _ _ _ (compare_bytes-swap a.id.raw b.id.raw) (
          and_then-swap _ _ _ _
            (compare_option-swap (segment_raw a.resource_type) (segment_raw b.resource_type))
            (and_then-swap _ _ _ _ (compare_option-swap (id_raw a.native_id) (id_raw b.native_id))
              (compare_bytes-swap a.raw b.raw)))))

-- Not after the first of a list.
abbrev pub Before : Fgrn → List Fgrn → Type 0
Before a [] = Unit
Before a (b ∷ units) = compare a b ≢ greater

-- No unit comes after the one behind it.
abbrev pub IsSorted : List Fgrn → Type 0
IsSorted [] = Unit
IsSorted (a ∷ units) = Before a units × IsSorted units

put_sorted-Before :
    (a b : Fgrn) (units : List Fgrn)
    → compare b a ≢ greater
    → Before b units
    → Before b (put_sorted a units)
unfolding put_sorted
put_sorted-Before a b [] n before = n
put_sorted-Before a b (c ∷ units) n before = by_order (compare a c)
  where
    by_order :
        (o : Ordering)
        → Before b
            (elim o as (λ _. List Fgrn) [ greater ↦ c ∷ put_sorted a units | _ ↦ a ∷ c ∷ units ])
    by_order less = n
    by_order equal = n
    by_order greater = before

put_sorted-IsSorted :
    (a : Fgrn) (units : List Fgrn) → IsSorted units → IsSorted (put_sorted a units)
unfolding put_sorted
put_sorted-IsSorted a [] sorted = (tt, tt)
put_sorted-IsSorted a (b ∷ units) (before, sorted) =
    by_order (compare a b) refl (put_sorted-IsSorted a units sorted)
  where
    by_order :
        (o : Ordering)
        → compare a b ≡ o
        → IsSorted (put_sorted a units)
        → IsSorted
            (elim o as (λ _. List Fgrn) [ greater ↦ b ∷ put_sorted a units | _ ↦ a ∷ b ∷ units ])
    by_order less e rest = (λ g. cc, (before, sorted))
    by_order equal e rest = (λ g. cc, (before, sorted))
    by_order greater e rest =
        let back : compare b a ≡ less = compare-swap a b ∙ ap swap e in
        (put_sorted-Before a b units (λ g. cc) before, rest)

sort-IsSorted : (units : List Fgrn) → IsSorted (sort units)
unfolding sort
sort-IsSorted [] = tt
sort-IsSorted (a ∷ units) = put_sorted-IsSorted a (sort units) (sort-IsSorted units)

within-IsSorted :
    (spine : Spine) (scope : SelectorScope) (target : Fgrn) (found : List Fgrn)
    → within spine scope target ≡ ok found
    → IsSorted found
unfolding within
within-IsSorted spine node target found run =
    let same : target ∷ [] ≡ found = cc run in subst IsSorted same (tt, tt)
within-IsSorted spine subtree target found run =
    let (units, gathered, e) = >>=-eq-ok (gather spine target spine.units) _ run in
    let same : sort units ≡ found = cc e in subst IsSorted same (sort-IsSorted units)

-- Whatever the spine and the selector, the units of an answer are in the derived order of `Fgrn`: no
-- unit comes after the one behind it.
pub resolve-IsSorted :
    (s : Selector) (spine : Spine) (found : List Fgrn) → resolve s spine ≡ ok found → IsSorted found
unfolding resolve
resolve-IsSorted s spine found run =
    let (_, _, rest) =
      >>=-eq-ok
        (ensure (spine.organization == s.organization)
          (raised (Error.spine (display s) "selector organization does not match spine")))
        _ run in
    let (target, _, e) = >>=-eq-ok (descend s spine s.path spine.root) _ rest in
    within-IsSorted spine s.scope target found e
