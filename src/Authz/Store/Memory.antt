-- ===== src/Authz/Store/Memory.antt =====
-- crates/authz-core/src/store/memory.rs: one model for each revision. The history is not empty; it
-- is the first model and those after it.
pub mod Snapshots
pub mod Safety
use forgeguard.Base.{
  ℕ, zero, suc, ◌+◌, ◌-◌, Bool, true, false, ◌||◌, List, [], ◌∷◌, ◌++◌, Option, none, some, ltb,
  ◌=ℕ◌, length, last?, get_elem?, codes, if◌then◌else◌,
}
use forgeguard.Base.Result.{Result, ok, err, ◌>>=◌, ok_or}
use forgeguard.Core.Fgrn.{Fgrn}
use forgeguard.Authz.Error.{Error, AuthzResult}
use forgeguard.Authz.Store.{ModelState, StoreWrite, written}
use forgeguard.Authz.Store.Slice.{EntitySlice, Failure, failed, broken, select_slice}

pub record MemoryStore : Type 0 where
  pub history : List ModelState

-- `MemoryStore::new`
abbrev pub store_new : ModelState → MemoryStore
store_new initial = record { history = initial ∷ [] }

pub record SliceQuery : Type 0 where
  pub principal : Fgrn
  pub resource : Fgrn
  pub revision : Option ℕ

unfoldable pub latest : MemoryStore → ℕ
latest store = length store.history

-- `history[index - 1]`, which panics where the subtraction is below zero, and out of range.
abbrev at_index :
    MemoryStore → ℕ → (ModelState → Result Failure EntitySlice) → Result Failure EntitySlice
at_index store index k =
    if index =ℕ 0
    then err broken
    else elim (get_elem? store.history (index - 1)) [ none ↦ err broken | some m ↦ k m ]

-- The slice at a revision, once the query's own or the latest is chosen.
unfoldable pub slice_at : MemoryStore → SliceQuery → ℕ → Result Failure EntitySlice
slice_at store query revision =
    if revision =ℕ 0 || ltb (latest store) revision
    then err (failed (Error.unknown_revision revision (latest store)))
    else at_index store revision
        (λ model. select_slice model query.principal query.resource revision)

unfoldable pub slice : MemoryStore → SliceQuery → Result Failure EntitySlice
unfolding slice_at
slice store query = slice_at store query (elim query.revision [ none ↦ latest store | some r ↦ r ])

-- The store after the write, and the revision that the write returns. An error leaves the history
-- as it was.
unfoldable pub apply : MemoryStore → StoreWrite → AuthzResult (MemoryStore × ℕ)
apply store write = do
  last ← ok_or (last? store.history) (Error.evaluation_failed (codes "memory store has no state"))
  next ← written write last
  ok (record { history = store.history ++ next ∷ [] }, length (store.history ++ next ∷ []))
