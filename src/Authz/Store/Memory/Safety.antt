-- ===== src/Authz/Store/Memory/Safety.antt =====
-- No slice of a store panics or runs on, whatever was written before.
use forgeguard.Base.{
  false, ℕ, zero, suc, ◌-◌, ◌<◌, ◌≡◌, ◌≢◌, refl, ◌||◌, List, [], ◌∷◌, ◌++◌, none, some, ltb, ◌=ℕ◌,
  length, last?, get_elem?, arith, inl, inr, subst, sym, ◌==◌, any, All, All-append, Bool-cases,
  Option-cases,
}
use forgeguard.Base.Assoc.{contains_key}
use forgeguard.Base.Result.{Result, ok, err, ◌>>=◌, map_err, Result-cases}
use forgeguard.Core.Error.{CoreResult}
use forgeguard.Core.Fgrn.{Fgrn, org_unit, kind_eq, fgrn_eq}
use forgeguard.Core.Spine.{Spine, OrgUnit, parent, path, org_unit_new, add}
use forgeguard.Core.Spine.Tree.{IsTree}
use forgeguard.Core.Spine.Path.{path-PathTo}
use forgeguard.Core.Spine.Edit.{add-IsTree}
use forgeguard.Authz.Error.{Error}
use forgeguard.Authz.Store.{
  ModelState, StoreWrite, put_org_unit, put_principal, put_principal_set, put_grant, remove,
  put_promotion, written, principal, promotion, upsert_principal, upsert_principal_set, add_grant,
  remove_grant, upsert_promotion,
}
use forgeguard.Authz.Store.Slice.{
  Failure, failed, broken, of_fault, add_nodes, spine_ancestry, select_slice, anchors_of,
}
use forgeguard.Authz.Store.Memory.{
  MemoryStore, SliceQuery, store_new, latest, slice, slice_at, apply, at_index,
}
use forgeguard.Authz.Store.Memory.Snapshots.{apply-grown}

-- No panic, and no endless loop.
abbrev pub IsSafe {ℓ} : {A : Type ℓ} → Result Failure A → Type 0
IsSafe (ok a) = Unit
IsSafe (err (failed e)) = Unit
IsSafe (err broken) = ⊥

module _ {ℓ κ} {A : Type ℓ} {B : Type κ} where
  IsSafe-bind :
      (m : Result Failure A) (f : A → Result Failure B)
      → IsSafe m
      → ((a : A) → IsSafe (f a))
      → IsSafe (m >>= f)
  IsSafe-bind (ok a) f h k = k a
  IsSafe-bind (err (failed e)) f h k = tt
  IsSafe-bind (err broken) f h k = absurd h

IsSafe-failed {ℓ} :
    {A : Type ℓ} (m : CoreResult A) → IsSafe (map_err (λ e. failed (Error.core e)) m)
IsSafe-failed (ok a) = tt
IsSafe-failed (err e) = tt

path-IsSafe : (s : Spine) (k : Fgrn) → IsTree s → IsSafe (map_err of_fault (path s k))
unfolding path
path-IsSafe s k tree = elim (Bool-cases (contains_key s.units k)) [
  | inr unknown ↦ rw (unknown, path) tt
  | inl known ↦
      let (found, n, run, to) = path-PathTo s tree k known in
      subst (λ r. IsSafe (map_err of_fault r)) (sym run) tt
]

add_nodes-IsSafe :
    (s : Spine) (nodes : List Fgrn) (units : List OrgUnit) → IsSafe (add_nodes s nodes units)
unfolding add_nodes
add_nodes-IsSafe s [] units = tt
add_nodes-IsSafe s (node ∷ nodes) units =
    elim (Bool-cases (any (λ (u : OrgUnit). u.fgrn == node) units)) [
      | inl e ↦ rw (e, add_nodes) (add_nodes-IsSafe s nodes units)
      | inr e ↦
          rw (e, add_nodes)
            (IsSafe-bind (map_err (λ e. failed (Error.core e)) (parent s node)) _
              (IsSafe-failed (parent s node))
              (λ above.
                IsSafe-bind (map_err (λ e. failed (Error.core e)) (org_unit_new node above)) _
                  (IsSafe-failed (org_unit_new node above))
                  (λ unit. add_nodes-IsSafe s nodes (units ++ unit ∷ []))))
    ]

spine_ancestry-IsSafe :
    (s : Spine) (anchors : List Fgrn) (units : List OrgUnit)
    → IsTree s
    → IsSafe (spine_ancestry s anchors units)
unfolding spine_ancestry
spine_ancestry-IsSafe s [] units tree = tt
spine_ancestry-IsSafe s (anchor ∷ anchors) units tree =
    elim (Bool-cases (anchor.kind == org_unit)) [
      | inr e ↦ rw (e, spine_ancestry) (spine_ancestry-IsSafe s anchors units tree)
      | inl e ↦
          rw (e, spine_ancestry)
            (IsSafe-bind (map_err of_fault (path s anchor)) _ (path-IsSafe s anchor tree) (λ nodes.
              IsSafe-bind (add_nodes s nodes units) _ (add_nodes-IsSafe s nodes units)
                (λ units. spine_ancestry-IsSafe s anchors units tree)))
    ]

select_slice-IsSafe :
    (m : ModelState) (who resource : Fgrn) (r : ℕ)
    → IsTree m.spine
    → IsSafe (select_slice m who resource r)
unfolding select_slice
select_slice-IsSafe m who resource r tree = elim (Option-cases (principal m who)) [
  | inl e ↦ rw (e, select_slice) tt
  | inr (p, e) ↦
      rw (e, select_slice)
        (IsSafe-bind (spine_ancestry m.spine (anchors_of p (promotion m resource)) []) _
          (spine_ancestry-IsSafe m.spine (anchors_of p (promotion m resource)) [] tree)
          (λ units. tt))
]

-- Every revision has a spine that is a tree.
abbrev pub IsSound : MemoryStore → Type 0
IsSound store = All (λ (m : ModelState). IsTree m.spine) store.history

get_elem?-All {ℓ κ} :
    {A : Type ℓ} (P : A → Type κ) (xs : List A) (i : ℕ)
    → All P xs
    → i < length xs
    → (x : A) × (get_elem? xs i ≡ some x) × P x
get_elem?-All P [] i h l = absurd (omega arith)
get_elem?-All P (x ∷ xs) zero h l = (x, refl, h.0)
get_elem?-All P (x ∷ xs) (suc i) h l = get_elem?-All P xs i h.1 (omega arith)

last?-All {ℓ κ} :
    {A : Type ℓ} (P : A → Type κ) (xs : List A) (x : A) → All P xs → last? xs ≡ some x → P x
last?-All P [] x h e = cc
last?-All P (y ∷ []) x h e = subst P (ground arith) h.0
last?-All P (y ∷ z ∷ xs) x h e = last?-All P (z ∷ xs) x h.1 e

slice_at-IsSafe :
    (store : MemoryStore) (query : SliceQuery) (r : ℕ)
    → IsSound store
    → IsSafe (slice_at store query r)
unfolding slice_at latest
slice_at-IsSafe store query r sound = elim (Bool-cases (r =ℕ 0 || ltb (length store.history) r)) [
  | inl e ↦ rw (e, slice_at) tt
  | inr e ↦
      let (m, found, tree) =
        get_elem?-All (λ (m : ModelState). IsTree m.spine) store.history (r - 1) sound
          (ground arith) in
      let above : (r =ℕ 0) ≡ false = ground arith in
      rw (e, slice_at)
        (rw (above, found, at_index) (select_slice-IsSafe m query.principal query.resource r tree))
]

unchanged : (m next : ModelState) → IsTree m.spine → m.spine ≡ next.spine → IsTree next.spine
unchanged m next tree e = subst IsTree e tree

-- A write keeps the spine a tree.
written-IsTree :
    (write : StoreWrite) (m next : ModelState)
    → IsTree m.spine
    → written write m ≡ ok next
    → IsTree next.spine
unfolding written upsert_principal upsert_principal_set add_grant remove_grant upsert_promotion
written-IsTree (put_org_unit unit) m next tree h = elim (Result-cases (add m.spine unit)) [
  | inr (x, e) ↦ cc (rw (e, written) at h)
  | inl (s, e) ↦
      let same : s ≡ next.spine = ground arith in
      subst IsTree same (add-IsTree m.spine s unit tree e).0
]
written-IsTree (put_principal p) m next tree h = unchanged m next tree (ground arith)
written-IsTree (put_principal_set p) m next tree h = unchanged m next tree (ground arith)
written-IsTree (put_grant p) m next tree h = unchanged m next tree (ground arith)
written-IsTree (remove p to) m next tree h = unchanged m next tree (ground arith)
written-IsTree (put_promotion p) m next tree h = unchanged m next tree (ground arith)

-- Whatever a store reaches by writes from a first model.
pub data Reached (first : ModelState) : MemoryStore → Type 0 where
  start : Reached first (store_new first)
  step :
      {store after : MemoryStore} {r : ℕ} (write : StoreWrite)
      → Reached first store
      → apply store write ≡ ok (after, r)
      → Reached first after

Reached-IsSound :
    (first : ModelState) (store : MemoryStore)
    → IsTree first.spine
    → Reached first store
    → IsSound store
Reached-IsSound first _ tree start = (tree, tt)
Reached-IsSound first _ tree (step {store} {after} {r} write before h) =
    let sound = Reached-IsSound first store tree before in
    let (last, next, e, f, a, s) = apply-grown store after write r h in
    subst IsSound (sym a) (
      All-append (λ (m : ModelState). IsTree m.spine) store.history (next ∷ []) sound
        (
          written-IsTree write last next
              (last?-All (λ (m : ModelState). IsTree m.spine) store.history last sound e) f,
          tt,
        ))

-- Starting from a model whose spine is a tree, whatever is written: a slice ends with a slice or an
-- error, at every revision and for every principal and resource. No lookup is out of range, no
-- `unreachable!` is reached, and no loop runs on.
pub slice-IsSafe :
    (first : ModelState) (store : MemoryStore) (query : SliceQuery)
    → IsTree first.spine
    → Reached first store
    → slice store query ≢ err broken
unfolding slice
slice-IsSafe first store query tree reached h = subst IsSafe h (
    slice_at-IsSafe store query (elim query.revision [ none ↦ latest store | some r ↦ r ])
      (Reached-IsSound first store tree reached))
