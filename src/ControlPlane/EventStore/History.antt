-- ===== src/ControlPlane/EventStore/History.antt =====
-- The store after any history of operations.
use forgeguard.Base.{ℕ, ◌≡◌, subst, Str, List, Option, nat_eq, list_eq, pair_eq}
use forgeguard.Base.Result.{Result, ok, >>=-eq-ok}
use forgeguard.Core.Segment.{Segment}
use forgeguard.Core.NativeId.{NativeId}
use forgeguard.Authz.Event.{Actor}
use forgeguard.Authz.Event.Effects.{OrgKind, KeyKind}
use forgeguard.Authz.Rbac.{RbacEntry}
use forgeguard.ControlPlane.Error.{Error}
use forgeguard.ControlPlane.SigningKey.{GenerateKeyResult}
use forgeguard.ControlPlane.EventStore.{
  Outside, Stamp, GroupWriteOutcome, OrgRecord, WriteThrough, EventStore, new,
  check_expected_revision,
}
use forgeguard.ControlPlane.EventStore.Entities.{
  upsert_changed, put_promotion, tombstone_promotion, check_absent, create_org, append_org_state,
}
use forgeguard.ControlPlane.EventStore.Keys.{generate_org_key, revoke_org_key, rotate_org_key}
use forgeguard.ControlPlane.EventStore.Groups.{put_group, delete_group}
use forgeguard.ControlPlane.EventStore.View.{IsFaithful, new-IsFaithful}
use forgeguard.ControlPlane.EventStore.Changes.{upserted-IsFaithful}
use forgeguard.ControlPlane.EventStore.Writes.{
  AllFaithful, event_kind, put_promotion-AllFaithful, tombstone_stored-AllFaithful,
  store_org-AllFaithful, append_org_keys-AllFaithful, generate-AllFaithful, rotate-AllFaithful,
  put_group-AllFaithful, delete_group-AllFaithful,
}

module _ (o : Outside) where
  -- The operations of the store, where they succeed.
  infix 40 ◌⟶◌
  pub data ◌⟶◌ (s t : EventStore o) : Type 0 where
    upserts :
        (stamp : Stamp) (org_id : Str) (id : NativeId) (actor : Actor) (payload : o.json.Value)
        → (upsert_changed o stamp org_id id actor payload s).0 ≡ t
        → s ⟶ t
    promotes :
        (stamp : Stamp) (org_id : Str) (resource_type : Segment) (id : NativeId) (actor : Actor)
        (n : ℕ)
        → put_promotion o stamp org_id resource_type id actor s ≡ ok (t, n)
        → s ⟶ t
    tombstones :
        (stamp : Stamp) (org_id : Str) (resource_type : Segment) (id : NativeId) (actor : Actor)
        (n : Option ℕ)
        → tombstone_promotion o stamp org_id resource_type id actor s ≡ ok (t, n)
        → s ⟶ t
    creates :
        (stamp : Stamp) (r : OrgRecord o) (actor : Actor) (n : ℕ)
        → create_org o stamp r actor s ≡ ok (t, n)
        → s ⟶ t
    appends :
        (stamp : Stamp) (r : OrgRecord o) (kind : OrgKind) (actor : Actor) (expected : Option ℕ)
        (n : ℕ)
        → append_org_state o stamp r (event_kind o kind) actor expected s ≡ ok (t, n)
        → s ⟶ t
    generates :
        (stamp : Stamp) (org_id : Str) (actor : Actor)
        (material : Result Error (GenerateKeyResult o.clock))
        (given : GenerateKeyResult o.clock × ℕ)
        → generate_org_key o stamp org_id actor material s ≡ ok (t, given)
        → s ⟶ t
    revokes :
        (stamp : Stamp) (org_id key_id : Str) (actor : Actor) (n : Option ℕ)
        → revoke_org_key o stamp org_id key_id actor s ≡ ok (t, n)
        → s ⟶ t
    rotates :
        (stamp : Stamp) (org_id key_id : Str) (actor : Actor)
        (material : Result Error (GenerateKeyResult o.clock)) (now : o.clock.Time)
        (given : GenerateKeyResult o.clock × ℕ)
        → rotate_org_key o stamp org_id key_id actor material now s ≡ ok (t, given)
        → s ⟶ t
    puts :
        (stamp : Stamp) (org_id : Str) (entry : RbacEntry) (actor : Actor) (expected : Option ℕ)
        (outcome : GroupWriteOutcome)
        → put_group o stamp org_id entry actor expected s ≡ ok (t, outcome)
        → s ⟶ t
    deletes :
        (stamp : Stamp) (org_id name : Str) (actor : Actor) (expected : Option ℕ)
        (outcome : GroupWriteOutcome)
        → delete_group o stamp org_id name actor expected s ≡ ok (t, outcome)
        → s ⟶ t

  -- The stores that a history of operations leads to, from a new one that writes through or not.
  pub data IsReached : EventStore o → Type 0 where
    start :
        (calls : Option (List (WriteThrough o))) → IsReached (record (new o) { org_store = calls })
    then : {s t : EventStore o} → IsReached s → s ⟶ t → IsReached t

  ⟶-AllFaithful : {s t : EventStore o} → s ⟶ t → AllFaithful o s → AllFaithful o t
  unfolding upsert_changed create_org append_org_state revoke_org_key tombstone_promotion
      AllFaithful
  ⟶-AllFaithful {s} {t} (upserts stamp org_id id actor payload e) h =
      subst (AllFaithful o) e (upserted-IsFaithful o s stamp org_id actor h id payload)
  ⟶-AllFaithful {s} {t} (promotes stamp org_id resource_type id actor n e) h =
      put_promotion-AllFaithful o s t stamp org_id resource_type id actor n e h
  ⟶-AllFaithful {s} {t} (tombstones stamp org_id resource_type id actor n e) h =
      tombstone_stored-AllFaithful o s t stamp org_id resource_type id actor _ n e h
  ⟶-AllFaithful {s} {t} (creates stamp r actor n e) h =
      let (_, _, same) = >>=-eq-ok (check_absent o r.org.org_id.raw s) _ e in
      store_org-AllFaithful o s t stamp r OrgKind.created actor n same h
  ⟶-AllFaithful {s} {t} (appends stamp r kind actor expected n e) h =
      let (_, _, same) = >>=-eq-ok (check_expected_revision o _ expected) _ e in
      store_org-AllFaithful o s t stamp r kind actor n same h
  ⟶-AllFaithful {s} {t} (generates stamp org_id actor material given e) h =
      generate-AllFaithful o s t stamp org_id actor material given e h
  ⟶-AllFaithful {s} {t} (revokes stamp org_id key_id actor n e) h =
      append_org_keys-AllFaithful o s t stamp org_id KeyKind.revoked actor _ n e h
  ⟶-AllFaithful {s} {t} (rotates stamp org_id key_id actor material now given e) h =
      rotate-AllFaithful o s t stamp org_id key_id actor material now given e h
  ⟶-AllFaithful {s} {t} (puts stamp org_id entry actor expected outcome e) h =
      put_group-AllFaithful o s t stamp org_id entry actor expected outcome e h
  ⟶-AllFaithful {s} {t} (deletes stamp org_id name actor expected outcome e) h =
      delete_group-AllFaithful o s t stamp org_id name actor expected outcome e h

  pub IsReached-AllFaithful :
      {s : EventStore o} → IsReached s → (org_id : Str) → IsFaithful o s org_id
  unfolding AllFaithful
  IsReached-AllFaithful (start calls) = new-IsFaithful o calls
  IsReached-AllFaithful (then r step) = ⟶-AllFaithful step (IsReached-AllFaithful r)
