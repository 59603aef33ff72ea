-- ===== src/ControlPlane/EventStore.antt =====
-- crates/control-plane/src/model_event_store: `InMemoryModelEventStore` of in_memory.rs, with the
-- transitions of keys and the builder of events of support.rs. A lock is not modelled, nor that a log
-- is in the map from its first use on: an organization without one has the empty log. Every `?` of an
-- operation comes before its first write, so an error leaves the store as it was.
pub mod Entities
pub mod Keys
pub mod Groups
pub mod Keyed
pub mod View
pub mod Changes
pub mod Folding
pub mod Writes
pub mod History
pub mod Refinement
mod Tests
use forgeguard.Base.{
  ℕ, ◌+◌, Str, Bool, true, false, List, [], ◌∷◌, ◌++◌, Option, none, some, codes, ◌=ℕ◌, not, ◌==◌,
  nat_eq, list_eq, pair_eq,
}
use forgeguard.Base.Assoc.{lookup, insert, remove, contains_key}
use forgeguard.Base.Result.{Result, ok, err, ◌>>=◌, ◌>>◌, ensure, map_err}
use forgeguard.Core.Error.{error_text}
use forgeguard.Core.Segment
use forgeguard.Core.Segment.{Segment}
use forgeguard.Core.NativeId.{NativeId}
use forgeguard.Core.Fgrn
use forgeguard.Core.Fgrn.{Fgrn, resource_of}
use forgeguard.Core.Org.{Organization}
use forgeguard.Authz.Json.{Json}
use forgeguard.Authz.Kind.{
  EventKind, org_created, org_updated, principal_upserted, resource_promoted, resource_tombstoned,
  org_key_generated, org_key_revoked, org_key_rotated, group_put, group_deleted,
}
use forgeguard.Authz.Event.{
  EventId, Actor, EventDraft, draft_new, EventEnvelope, from_signed, push, latest_revision,
}
use forgeguard.Authz.Event.Payload.{
  principal_event_payload, key_event_payload, org_event_payload, group_put_payload,
  group_deleted_payload, promotion_event_payload, UpsertDecision, decide_upsert, changed,
}
use forgeguard.Authz.Rbac.{RbacEntry}
use forgeguard.ControlPlane.Error.{Error, conflict, not_found, revision_mismatch, store}
use forgeguard.ControlPlane.SigningKey.{
  Clock, SigningKeyEntry, GenerateKeyResult, to_entry, rotate_entries, revoke_entries,
}

-- What the store uses of code that is not in the repository: serde, of types whose serialization does
-- not fail; the clock; and the signature of a draft for an organization, in Base64.
pub record Outside : Type 1 where
  pub json : Json
  pub clock : Clock
  pub Config : Type 0
  -- The fields of the object that an organization is written as.
  pub organization_fields : Organization clock.Time → List (Str × json.Value)
  pub config_value : Config → json.Value
  pub keys_value : List (SigningKeyEntry clock) → json.Value
  pub group_value : RbacEntry → json.Value
  -- Whether `EtagedGroup::compute` succeeds.
  pub has_etag : RbacEntry → Bool
  pub sign : EventDraft json → Str → Str
  pub rotation_grace : clock.Duration

-- An error, or an arm that the code marks as `unreachable!`.
pub data Fault : Type 0 where
  failed : Error → Fault
  unreachable : Fault

-- What is minted for an event: its ULID and the time.
pub record Stamp : Type 0 where
  pub event_id : EventId
  pub occurred_at : Str

pub data GroupWriteOutcome : Type 0 where
  no_op : (current : ℕ) → GroupWriteOutcome
  applied : (revision : ℕ) → GroupWriteOutcome

module _ (o : Outside) where
  pub record ConfiguredConfig : Type 0 where
    pub config : o.Config
    pub etag : Str

  pub record OrgRecord : Type 0 where
    pub org : Organization o.clock.Time
    pub configured : Option ConfiguredConfig

  abbrev pub Keys : Type 0
  Keys = List (SigningKeyEntry o.clock)

  abbrev pub Log : Type 0
  Log = List (EventEnvelope o.json)

  -- The calls of the store that is written through to.
  pub data WriteThrough : Type 0 where
    org_written : OrgRecord → WriteThrough
    keys_written : Segment → Keys → WriteThrough
    group_written : Segment → RbacEntry → WriteThrough
    group_removed : Segment → Str → WriteThrough

  pub record EventStore : Type 0 where
    pub principals : List ((Str × Str) × o.json.Value)
    pub logs : List (Str × Log)
    pub promotions : List ((Str × (Str × Str)) × Str)
    pub orgs : List (Str × OrgRecord)
    pub signing_keys : List (Str × Keys)
    pub groups : List ((Str × Str) × RbacEntry)
    -- `None`, or the calls so far.
    pub org_store : Option (List WriteThrough)

  abbrev pub new : EventStore
  new = record {
    principals = [];
    logs = [];
    promotions = [];
    orgs = [];
    signing_keys = [];
    groups = [];
    org_store = none;
  }

  abbrev pub config_of : OrgRecord → Option o.json.Value
  config_of r = elim r.configured [ none ↦ none | some c ↦ some (o.config_value c.config) ]

  abbrev pub org_payload : OrgRecord → o.json.Value
  org_payload r =
      org_event_payload o.json (o.json.object (o.organization_fields r.org)) (config_of r)

  abbrev pub log_of : EventStore → Str → Log
  log_of s org_id = elim (lookup org_id s.logs) [ none ↦ [] | some log ↦ log ]

  abbrev pub in_memory_key_id : Str
  in_memory_key_id = codes "in-memory-test-key"

  -- `build_model_event`
  unfoldable pub build_model_event :
      Stamp → Str → EventKind → Actor → o.json.Value → ℕ → EventEnvelope o.json
  build_model_event stamp org_id kind actor payload revision =
      let draft : EventDraft o.json = draft_new (record {
        event_id = stamp.event_id;
        seq = revision;
        kind = kind;
        occurred_at = stamp.occurred_at;
        actor = actor;
        payload = payload;
      }) in
      from_signed draft in_memory_key_id (o.sign draft org_id)

  abbrev pub next_revision : EventStore → Str → ℕ
  next_revision s org_id = latest_revision (log_of s org_id) + 1

  -- The store with the event in the organization's log; the event's revision is `next_revision`.
  abbrev pub mint_and_push :
      Stamp → Str → EventKind → Actor → o.json.Value → EventStore → EventStore
  mint_and_push stamp org_id kind actor payload s =
      let envelope = build_model_event stamp org_id kind actor payload (next_revision s org_id) in
      record s { logs = insert org_id (push (log_of s org_id) envelope) s.logs }

  abbrev pub write_through : WriteThrough → Option (List WriteThrough) → Option (List WriteThrough)
  write_through call none = none
  write_through call (some calls) = some (calls ++ call ∷ [])

  -- Where the organization's id is no `OrganizationId`, nothing is written through.
  abbrev pub write_through_for :
      Str → (Segment → WriteThrough) → Option (List WriteThrough) → Option (List WriteThrough)
  write_through_for org_id call calls = elim (Segment.try_new org_id) [
    | ok id ↦ write_through (call id) calls
    | err e ↦ calls
  ]

  pub check_expected_revision : ℕ → Option ℕ → Result Fault (Unit {0})
  check_expected_revision current none = ok tt
  check_expected_revision current (some expected) =
      ensure (current =ℕ expected) (failed (revision_mismatch current))
