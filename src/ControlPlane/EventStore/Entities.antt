-- ===== src/ControlPlane/EventStore/Entities.antt =====
-- crates/control-plane/src/model_event_store/in_memory.rs: principals, promotions and organizations.
use forgeguard.Base.{ℕ, Str, ◌++◌, Option, none, some, codes, not, nat_eq, list_eq, pair_eq}
use forgeguard.Base.Assoc.{lookup, insert, remove, contains_key}
use forgeguard.Base.Result.{Result, ok, err, ◌>>=◌, ◌>>◌, ensure, map_err}
use forgeguard.Core.Error.{error_text}
use forgeguard.Core.Segment
use forgeguard.Core.Segment.{Segment}
use forgeguard.Core.NativeId.{NativeId}
use forgeguard.Core.Fgrn
use forgeguard.Core.Fgrn.{Fgrn, resource_of}
use forgeguard.Authz.Kind.{
  EventKind, org_created, principal_upserted, resource_promoted, resource_tombstoned,
}
use forgeguard.Authz.Event.{Actor, latest_revision}
use forgeguard.Authz.Event.Payload.{principal_event_payload, promotion_event_payload}
use forgeguard.ControlPlane.Error.{conflict, store}
use forgeguard.ControlPlane.EventStore.{
  Outside, Fault, failed, unreachable, Stamp, OrgRecord, org_written, EventStore, org_payload,
  log_of, next_revision, mint_and_push, write_through, check_expected_revision,
}

module _ (o : Outside) where
  unfoldable pub upsert_changed :
      Stamp → Str → NativeId → Actor → o.json.Value → EventStore o → EventStore o × ℕ
  upsert_changed stamp org_id native_id actor payload s =
      let minted =
        mint_and_push o stamp org_id principal_upserted actor
          (principal_event_payload o.json native_id payload) s in
      (
        record minted { principals = insert (org_id, native_id.raw) payload s.principals },
        next_revision o s org_id,
      )

  unfoldable pub promotion_fgrn : Str → Segment → NativeId → Result Fault Fgrn
  promotion_fgrn org_id resource_type native_id = elim (Segment.try_new org_id) [
    | err e ↦ err (failed (store (codes "org id is not a valid FGRN segment: " ++ error_text e)))
    | ok org ↦ elim (resource_of org resource_type native_id) [
      | none ↦ err unreachable
      | some fgrn ↦ ok fgrn
    ]
  ]

  unfoldable pub put_promotion :
      Stamp → Str → Segment → NativeId → Actor → EventStore o → Result Fault (EventStore o × ℕ)
  put_promotion stamp org_id resource_type native_id actor s = do
    fgrn ← promotion_fgrn org_id resource_type native_id
    ok (
      record (mint_and_push o stamp org_id resource_promoted actor
          (promotion_event_payload o.json fgrn resource_type native_id) s) {
            promotions = insert (org_id, (resource_type.raw, native_id.raw)) fgrn.raw s.promotions;
          },
      next_revision o s org_id,
    )

  unfoldable pub tombstone_stored :
      Stamp
      → Str
      → Segment
      → NativeId
      → Actor
      → EventStore o
      → Option Str
      → Result Fault (EventStore o × Option ℕ)
  tombstone_stored stamp org_id resource_type native_id actor s none = ok (s, none)
  tombstone_stored stamp org_id resource_type native_id actor s (some stored) = do
    fgrn ←
        map_err (λ e. failed (store (codes "stored promotion fgrn invalid: " ++ error_text e)))
          (Fgrn.parse stored)
    ok (
      record (mint_and_push o stamp org_id resource_tombstoned actor
          (promotion_event_payload o.json fgrn resource_type native_id) s) {
            promotions = remove (org_id, (resource_type.raw, native_id.raw)) s.promotions;
          },
      some (next_revision o s org_id),
    )

  unfoldable pub tombstone_promotion :
      Stamp
      → Str
      → Segment
      → NativeId
      → Actor
      → EventStore o
      → Result Fault (EventStore o × Option ℕ)
  unfolding tombstone_stored
  tombstone_promotion stamp org_id resource_type native_id actor s =
      tombstone_stored stamp org_id resource_type native_id actor s
        (lookup (org_id, (resource_type.raw, native_id.raw)) s.promotions)

  -- What `create_org` and `append_org_state` do once they may.
  unfoldable pub store_org :
      Stamp → OrgRecord o → EventKind → Actor → EventStore o → EventStore o × ℕ
  store_org stamp r kind actor s =
      let org_id = r.org.org_id.raw in
      (
        record (mint_and_push o stamp org_id kind actor (org_payload o r) s) {
          orgs = insert org_id r s.orgs;
          org_store = write_through o (org_written r) s.org_store;
        },
        next_revision o s org_id,
      )

  pub check_absent : Str → EventStore o → Result Fault (Unit {0})
  check_absent org_id s =
      ensure (not (contains_key s.orgs org_id))
        (failed (conflict (codes "organization '" ++ (org_id ++ codes "' already exists"))))

  unfoldable pub create_org :
      Stamp → OrgRecord o → Actor → EventStore o → Result Fault (EventStore o × ℕ)
  unfolding store_org
  create_org stamp r actor s = do
    check_absent r.org.org_id.raw s
    ok (store_org stamp r org_created actor s)

  -- `append_org_state`: `update_org` and `transition_org` are this with their kind.
  unfoldable pub append_org_state :
      Stamp
      → OrgRecord o
      → EventKind
      → Actor
      → Option ℕ
      → EventStore o
      → Result Fault (EventStore o × ℕ)
  unfolding store_org check_expected_revision
  append_org_state stamp r kind actor expected s = do
    check_expected_revision o (latest_revision (log_of o s r.org.org_id.raw)) expected
    ok (store_org stamp r kind actor s)
