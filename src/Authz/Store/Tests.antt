-- ===== src/Authz/Store/Tests.antt =====
-- A store of two revisions: a model, and the model with a principal.
use forgeguard.Base.{
  contains, true, ◌↔◌, ℕ, ◌≡◌, ◌≢◌, ◌≤◌, ◌<◌, ◌+◌, refl, [], ◌∷◌, none, some, codes, last?,
}
use forgeguard.Base.Result.{ok, err}
use forgeguard.Core.Fgrn.{fgrn_eq, Fgrn, FgrnKind, new}
use forgeguard.Core.Grant.{human}
use forgeguard.Core.Spine.Tests.{ou, tree, tree-IsTree}
use forgeguard.Authz.Store.{
  ModelState, StoreWrite, put_principal, written, model_new, upsert_principal,
}
use forgeguard.Authz.Store.Slice.{broken, select_slice}
use forgeguard.Authz.Store.Slice.{transitive_principal_sets}
use forgeguard.Authz.Store.Slice.Sets.{Belongs, names}
use forgeguard.Authz.Store.Slice.Fixpoint.{transitive_principal_sets_iff}
use forgeguard.Authz.Store.Memory.{MemoryStore, SliceQuery, store_new, latest, slice, apply}
use forgeguard.Authz.Store.Memory.Snapshots.{apply-slice}
use forgeguard.Authz.Store.Memory.Safety.{start, step, slice-IsSafe}

abbrev maria : Fgrn
unfolding new
maria =
    new (record { raw = codes "acme" }) FgrnKind.principal (record { raw = codes "maria" }) none
      none

abbrev hired : StoreWrite
hired = put_principal (record { fgrn = maria; kind = human; anchor = ou "finance" })

abbrev first : ModelState
first = model_new tree

abbrev second : ModelState
second = record first {
  principals = record { fgrn = maria; kind = human; anchor = ou "finance" } ∷ [];
}

abbrev after : MemoryStore
after = record { history = first ∷ second ∷ [] }

applied : apply (store_new first) hired ≡ ok (after, 2)
unfolding apply written upsert_principal
applied = refl

apply-slice_example :
    (2 ≡ latest (store_new first) + 1)
    × (latest after ≡ 2)
    × ((query : SliceQuery) (n : ℕ)
        → query.revision ≡ some n
        → 0 < n
        → n ≤ latest (store_new first)
        → slice after query ≡ slice (store_new first) query)
    × ((last next : ModelState) × (last? (store_new first).history ≡ some last)
        × (written hired last ≡ ok next)
        × ((query : SliceQuery)
            → query.revision ≡ none
            → slice after query ≡ select_slice next query.principal query.resource 2))
apply-slice_example = apply-slice (store_new first) after hired 2 applied

abbrev query : SliceQuery
query = record { principal = maria; resource = maria; revision = some 2 }

slice-IsSafe_example : slice after query ≢ err broken
slice-IsSafe_example = slice-IsSafe first after query tree-IsTree (step hired start applied)

abbrev team : Fgrn
unfolding new
team =
    new (record { raw = codes "acme" }) FgrnKind.principal_set (record { raw = codes "team" }) none
      none

abbrev staffed : ModelState
staffed = record second {
  sets = record { fgrn = team; anchor = ou "finance"; members = maria ∷ [] } ∷ [];
}

transitive_principal_sets_iff_example :
    (contains (names (transitive_principal_sets staffed maria)) team ≡ true)
    ↔ Belongs staffed.sets maria team
transitive_principal_sets_iff_example = transitive_principal_sets_iff staffed maria team
