-- ===== src/Authz/Event/Payload.antt =====
-- crates/authz-core/src/event/fold.rs and upsert.rs: the payload builders and the no-op decision.
use forgeguard.Base.{
  Str, Bool, true, false, [], ◌∷◌, Option, none, some, codes, ◌≡◌, ◌↔◌, ◌⊎◌, arith,
}
use forgeguard.Core.NativeId.{NativeId}
use forgeguard.Core.Segment.{Segment}
use forgeguard.Core.Fgrn.{Fgrn}
use forgeguard.Authz.Json.{Json}

module _ (json : Json) where
  unfoldable pub principal_event_payload : NativeId → json.Value → json.Value
  principal_event_payload native_id principal =
      json.object
        ((codes "native_id", json.string native_id.raw) ∷ (codes "principal", principal) ∷ [])

  unfoldable pub key_event_payload : Str → json.Value → json.Value
  key_event_payload key_id keys =
      json.object ((codes "key_id", json.string key_id) ∷ (codes "keys", keys) ∷ [])

  -- A missing config is written as `null`.
  unfoldable pub org_event_payload : json.Value → Option json.Value → json.Value
  org_event_payload organization config = json.object (
      (codes "organization", organization)
      ∷ (codes "config", elim config [ none ↦ json.null | some c ↦ c ])
      ∷ [])

  unfoldable pub group_put_payload : Str → json.Value → json.Value
  group_put_payload name group =
      json.object ((codes "name", json.string name) ∷ (codes "group", group) ∷ [])

  unfoldable pub group_deleted_payload : Str → json.Value
  group_deleted_payload name = json.object ((codes "name", json.string name) ∷ [])

  -- `promotion_event_payload`, of crates/control-plane/src/promotion_store.rs.
  unfoldable pub promotion_event_payload : Fgrn → Segment → NativeId → json.Value
  promotion_event_payload fgrn resource_type native_id = json.object (
      (codes "fgrn", json.string fgrn.raw)
      ∷ (codes "resource_type", json.string resource_type.raw)
      ∷ (codes "native_id", json.string native_id.raw)
      ∷ [])

  pub data UpsertDecision : Type 0 where
    no_op : UpsertDecision
    changed : json.Value → UpsertDecision

  changed_unless : Bool → json.Value → UpsertDecision
  changed_unless true incoming = no_op
  changed_unless false incoming = changed incoming

  unfoldable pub decide_upsert : Option json.Value → json.Value → UpsertDecision
  unfolding changed_unless
  decide_upsert none incoming = changed incoming
  decide_upsert (some current) incoming = changed_unless (json.beq current incoming) incoming

  -- An upsert is a no-op exactly when the stored document is the incoming one; every other upsert
  -- keeps the incoming document.
  pub decide_upsert_lem :
      (existing : Option json.Value) (incoming : json.Value)
      → ((decide_upsert existing incoming ≡ no_op) ↔ (existing ≡ some incoming))
        × ((decide_upsert existing incoming ≡ no_op)
            ⊎ (decide_upsert existing incoming ≡ changed incoming))
  unfolding decide_upsert
  decide_upsert_lem none incoming = ground arith
  decide_upsert_lem (some current) incoming = ground (arith, json.beq_iff current incoming)
