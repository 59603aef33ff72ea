-- ===== src/Authz/Store.antt =====
-- crates/authz-core/src/store (model.rs, traits.rs, memory.rs, slice.rs): the model of an
-- organization, the writes that change it, the in-memory store of its revisions, and the slice of
-- it that a decision reads. A `Revision` is the number that it wraps.
pub mod Slice
pub mod Memory
mod Tests
use forgeguard.Base.{
  ℕ, zero, suc, ◌+◌, Bool, true, false, not, ◌&&◌, ◌||◌, List, [], ◌∷◌, ◌++◌, Option, none, some,
  ◌==◌, find, filter, length, ◌=ℕ◌,
}
use forgeguard.Base.Result.{Result, ok, err, ◌>>=◌, map_err}
use forgeguard.Core.Fgrn.{Fgrn, fgrn_eq}
use forgeguard.Core.Spine.{Spine, OrgUnit, add}
use forgeguard.Core.Grant.{Grant, Principal, PromotedResource}
use forgeguard.Core.PrincipalSet.{PrincipalSet}
use forgeguard.Authz.Error.{Error, AuthzResult}

pub record ModelState : Type 0 where
  pub spine : Spine
  pub principals : List Principal
  pub sets : List PrincipalSet
  pub grants : List Grant
  pub promotions : List PromotedResource

-- `ModelState::new`
abbrev pub model_new : Spine → ModelState
model_new spine = record { spine = spine; principals = []; sets = []; grants = []; promotions = [] }

unfoldable pub upsert_principal : Principal → ModelState → ModelState
upsert_principal p m = record m {
  principals = filter (λ q. not (q.fgrn == p.fgrn)) m.principals ++ p ∷ [];
}

unfoldable pub principal : ModelState → Fgrn → Option Principal
principal m fgrn = find (λ p. p.fgrn == fgrn) m.principals

unfoldable pub upsert_principal_set : PrincipalSet → ModelState → ModelState
upsert_principal_set s m = record m { sets = filter (λ t. not (t.fgrn == s.fgrn)) m.sets ++ s ∷ [] }

unfoldable pub add_grant : Grant → ModelState → ModelState
add_grant g m = record m { grants = m.grants ++ g ∷ [] }

-- With what the method returns: whether a grant was removed.
unfoldable pub remove_grant : Fgrn → Fgrn → ModelState → ModelState × Bool
remove_grant resource to m =
    let rest = filter (λ g. not (g.resource == resource && g.to == to)) m.grants in
    (record m { grants = rest }, not (length rest =ℕ length m.grants))

unfoldable pub upsert_promotion : PromotedResource → ModelState → ModelState
upsert_promotion p m = record m {
  promotions = filter (λ q. not (q.fgrn == p.fgrn)) m.promotions ++ p ∷ [];
}

unfoldable pub promotion : ModelState → Fgrn → Option PromotedResource
promotion m fgrn = find (λ p. p.fgrn == fgrn) m.promotions

pub data StoreWrite : Type 0 where
  put_org_unit : OrgUnit → StoreWrite
  put_principal : Principal → StoreWrite
  put_principal_set : PrincipalSet → StoreWrite
  put_grant : Grant → StoreWrite
  remove : Fgrn → Fgrn → StoreWrite
  put_promotion : PromotedResource → StoreWrite

-- The `match write` of `apply`.
unfoldable pub written : StoreWrite → ModelState → AuthzResult ModelState
written (put_org_unit unit) m = do
  spine ← map_err Error.core (add m.spine unit)
  ok (record m { spine = spine })
written (put_principal p) m = ok (upsert_principal p m)
written (put_principal_set s) m = ok (upsert_principal_set s m)
written (put_grant g) m = ok (add_grant g m)
written (remove resource to) m = ok (remove_grant resource to m).0
written (put_promotion p) m = ok (upsert_promotion p m)
