-- ===== src/ControlPlane/EventStore/Groups.antt =====
-- crates/control-plane/src/model_event_store/in_memory.rs: groups.
use forgeguard.Base.{ℕ, Str, true, false, List, Option, none, some, nat_eq, list_eq, pair_eq}
use forgeguard.Base.Assoc.{lookup, insert, remove, contains_key}
use forgeguard.Base.Result.{Result, ok, ◌>>◌}
use forgeguard.Authz.Kind.{group_put, group_deleted}
use forgeguard.Authz.Event.{Actor, latest_revision}
use forgeguard.Authz.Event.Payload.{
  group_put_payload, group_deleted_payload, UpsertDecision, decide_upsert, changed,
}
use forgeguard.Authz.Rbac.{RbacEntry}
use forgeguard.ControlPlane.EventStore.{
  Outside, Fault, Stamp, GroupWriteOutcome, applied, WriteThrough, group_written, group_removed,
  EventStore, log_of, next_revision, mint_and_push, write_through_for, check_expected_revision,
}

module _ (o : Outside) where
  abbrev pub group_values : Option RbacEntry → Option o.json.Value
  group_values none = none
  group_values (some entry) = some (o.group_value entry)

  -- `EtagedGroup::compute`: where it fails, the group is not written through.
  abbrev pub group_call :
      Str → RbacEntry → Option (List (WriteThrough o)) → Option (List (WriteThrough o))
  group_call org_id entry calls = elim (o.has_etag entry) [
    | true ↦ write_through_for o org_id (λ id. group_written id entry) calls
    | false ↦ calls
  ]

  -- The arm of `put_group` for an entry that is not the one stored.
  unfoldable pub store_group :
      Stamp
      → Str
      → RbacEntry
      → Actor
      → Option ℕ
      → EventStore o
      → Result Fault (EventStore o × GroupWriteOutcome)
  store_group stamp org_id entry actor expected s = do
    check_expected_revision o (latest_revision (log_of o s org_id)) expected
    ok (
      record (mint_and_push o stamp org_id group_put actor
          (group_put_payload o.json entry.name (o.group_value entry)) s) {
            groups = insert (org_id, entry.name) entry s.groups;
            org_store = group_call org_id entry s.org_store;
          },
      applied (next_revision o s org_id),
    )

  unfoldable pub put_group :
      Stamp
      → Str
      → RbacEntry
      → Actor
      → Option ℕ
      → EventStore o
      → Result Fault (EventStore o × GroupWriteOutcome)
  put_group stamp org_id entry actor expected s =
      elim (decide_upsert o.json (group_values (lookup (org_id, entry.name) s.groups))
        (o.group_value entry)) [
          | UpsertDecision.no_op ↦
              ok (s, GroupWriteOutcome.no_op (latest_revision (log_of o s org_id)))
          | changed payload ↦ store_group stamp org_id entry actor expected s
        ]

  -- The rest of `delete_group`, for a group that exists.
  unfoldable pub drop_group :
      Stamp
      → Str
      → Str
      → Actor
      → Option ℕ
      → EventStore o
      → Result Fault (EventStore o × GroupWriteOutcome)
  drop_group stamp org_id name actor expected s = do
    check_expected_revision o (latest_revision (log_of o s org_id)) expected
    ok (
      record (mint_and_push o stamp org_id group_deleted actor (group_deleted_payload o.json name)
          s) {
            groups = remove (org_id, name) s.groups;
            org_store = write_through_for o org_id (λ id. group_removed id name) s.org_store;
          },
      applied (next_revision o s org_id),
    )

  unfoldable pub delete_group :
      Stamp
      → Str
      → Str
      → Actor
      → Option ℕ
      → EventStore o
      → Result Fault (EventStore o × GroupWriteOutcome)
  delete_group stamp org_id name actor expected s = elim (contains_key s.groups (org_id, name)) [
    | false ↦ ok (s, GroupWriteOutcome.no_op (latest_revision (log_of o s org_id)))
    | true ↦ drop_group stamp org_id name actor expected s
  ]
