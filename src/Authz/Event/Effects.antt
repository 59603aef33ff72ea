-- ===== src/Authz/Event/Effects.antt =====
-- The changes of a model that the program writes events for, and what they mean.
pub mod Step
pub mod History
use forgeguard.Base.{
  ℕ, zero, suc, ◌<◌, ◌≤◌, take, length, Str, ◌≡◌, refl, Bool, true, false, List, [], ◌∷◌, Option,
  none, some, codes, arith, distinct, ◌∙◌, ap, nat_eq, list_eq, pair_eq,
}
use forgeguard.Base.Assoc.{lookup, keys as map_keys, insert, remove}
use forgeguard.Base.Result.{ok, err, ◌>>=◌}
use forgeguard.Core.NativeId.{NativeId}
use forgeguard.Core.Segment.{Segment}
use forgeguard.Core.Fgrn.{Fgrn}
use forgeguard.Authz.Json.{Json, index}
use forgeguard.Authz.Kind.{
  EventKind, org_created, org_updated, org_activated, org_suspended, org_restored,
  principal_upserted, resource_promoted, resource_tombstoned, org_key_generated, org_key_revoked,
  org_key_rotated, group_put, group_deleted,
}
use forgeguard.Authz.Event.{EventEnvelope, IsNumbered}
use forgeguard.Authz.Event.Payload.{
  principal_event_payload, key_event_payload, org_event_payload, group_put_payload,
  group_deleted_payload, promotion_event_payload,
}
use forgeguard.Authz.Event.Fold.{FoldedState, empty_at, apply_event, fold_events}
use forgeguard.Authz.Event.Fold.Replay.{replay, fold_events-eq-replay}

-- The kinds of event about the organization, and about its request-signing keys.
pub data OrgKind : Type 0 where
  created updated activated suspended restored : OrgKind

pub data KeyKind : Type 0 where
  generated revoked rotated : KeyKind

module _ (json : Json) where
  -- One change of an organization's model.
  pub data Change : Type 0 where
    upserted : NativeId → json.Value → Change
    promoted tombstoned : Fgrn → Segment → NativeId → Change
    org : OrgKind → List (Str × json.Value) → Option json.Value → Change
    keys : KeyKind → Str → json.Value → Change
    group_stored : Str → json.Value → Change
    group_removed : Str → Change

module _ {json : Json} where
  abbrev pub kind_of : Change json → EventKind
  kind_of (upserted id doc) = principal_upserted
  kind_of (promoted f t n) = resource_promoted
  kind_of (tombstoned f t n) = resource_tombstoned
  kind_of (org OrgKind.created o c) = org_created
  kind_of (org OrgKind.updated o c) = org_updated
  kind_of (org OrgKind.activated o c) = org_activated
  kind_of (org OrgKind.suspended o c) = org_suspended
  kind_of (org OrgKind.restored o c) = org_restored
  kind_of (keys KeyKind.generated k v) = org_key_generated
  kind_of (keys KeyKind.revoked k v) = org_key_revoked
  kind_of (keys KeyKind.rotated k v) = org_key_rotated
  kind_of (group_stored n g) = group_put
  kind_of (group_removed n) = group_deleted

  abbrev pub payload_of : Change json → json.Value
  payload_of (upserted id doc) = principal_event_payload json id doc
  payload_of (promoted f t n) = promotion_event_payload json f t n
  payload_of (tombstoned f t n) = promotion_event_payload json f t n
  payload_of (org k o c) = org_event_payload json (json.object o) c
  payload_of (keys k id v) = key_event_payload json id v
  payload_of (group_stored n g) = group_put_payload json n g
  payload_of (group_removed n) = group_deleted_payload json n

  -- What the change means for the model.
  abbrev pub effect : Change json → FoldedState json → FoldedState json
  effect (upserted id doc) s = record s { principals = insert id.raw doc s.principals }
  effect (promoted f t n) s = record s { promotions = insert (t.raw, n.raw) f.raw s.promotions }
  effect (tombstoned f t n) s = record s { promotions = remove (t.raw, n.raw) s.promotions }
  effect (org k o c) s = record s { org = some (org_event_payload json (json.object o) c) }
  effect (keys k id v) s = record s { org_keys = some v }
  effect (group_stored n g) s = record s { groups = insert n g s.groups }
  effect (group_removed n) s = record s { groups = remove n s.groups }

module _ {json : Json} where
  -- The event records the change: it has the kind and the payload that the program builds for it.
  abbrev pub RecordsOne : EventEnvelope json → Change json → Type 0
  RecordsOne e c = (e.kind ≡ kind_of c) × (e.payload ≡ payload_of c)

  -- The log records the changes, event by event.
  abbrev pub Records : List (EventEnvelope json) → List (Change json) → Type 0
  Records [] [] = Unit
  Records (e ∷ log) (c ∷ changes) = RecordsOne e c × Records log changes
  Records _ _ = ⊥

  -- The changes made one after the other.
  abbrev pub effects : List (Change json) → FoldedState json → FoldedState json
  effects [] s = s
  effects (c ∷ changes) s = effects changes (effect c s)
