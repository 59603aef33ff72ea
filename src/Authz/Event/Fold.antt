-- ===== src/Authz/Event/Fold.antt =====
-- crates/authz-core/src/event/fold.rs: the state of an organization at a revision, from its log.
pub mod Replay
use forgeguard.Base.{
  ℕ, zero, suc, ◌+◌, Str, String, Bool, true, false, not, ◌||◌, List, [], ◌∷◌, ◌++◌, Option, none,
  some, codes, ltb, ◌=ℕ◌, if◌then◌else◌, nat_eq, list_eq, pair_eq,
}
use forgeguard.Base.Text.{decimal}
use forgeguard.Base.Assoc.{lookup, insert, remove}
use forgeguard.Base.Result.{Result, ok, err, ◌>>=◌, ◌>>◌, ensure, ok_or, map_err}
use forgeguard.Authz.Error.{Error, AuthzResult}
use forgeguard.Authz.Json.{Json, index}
use forgeguard.Authz.Kind.{
  EventKind, as_str, org_created, org_updated, org_unit_put, principal_upserted, principal_set_put,
  grant_added, grant_removed, resource_promoted, resource_tombstoned, deny_created, deny_removed,
  org_activated, org_suspended, org_restored, org_key_generated, org_key_revoked, org_key_rotated,
  group_put, group_deleted,
}
use forgeguard.Authz.Event.{EventEnvelope, latest_revision}

module _ (json : Json) where
  pub record FoldedState : Type 0 where
    pub revision : ℕ
    pub principals : List (Str × json.Value)
    pub promotions : List ((Str × Str) × Str)
    pub org : Option json.Value
    pub org_keys : Option json.Value
    pub groups : List (Str × json.Value)

  -- The state that the loop starts from, and `FoldedState::empty` at revision 0.
  abbrev pub empty_at : ℕ → FoldedState
  empty_at revision = record {
    revision = revision;
    principals = [];
    promotions = [];
    org = none;
    org_keys = none;
    groups = [];
  }

module _ {json : Json} where
  unfoldable_error : EventEnvelope json → Str → Error
  unfoldable_error event reason = Error.unfoldable_event event.seq reason

  -- "{kind} payload missing {what}"
  abbrev missing : EventEnvelope json → Str → Str
  missing event what = as_str event.kind ++ (codes " payload missing " ++ what)

  payload_str : EventEnvelope json → Str → AuthzResult Str
  unfolding unfoldable_error
  payload_str event field =
      ok_or (json.as_str (index json event.payload field))
        (unfoldable_error event (missing event (codes "string field " ++ field)))

  payload_get : EventEnvelope json → Str → Str → AuthzResult json.Value
  unfolding unfoldable_error
  payload_get event field reason =
      ok_or (json.get event.payload field) (unfoldable_error event reason)

  upsert_principal : EventEnvelope json → FoldedState json → AuthzResult (FoldedState json)
  unfolding payload_str payload_get
  upsert_principal event state = do
    native_id ←
        map_err
          (λ _.
            unfoldable_error event
              (codes "principal.upserted payload missing native_id (pre-V5 event)"))
          (payload_str event (codes "native_id"))
    doc ←
        payload_get event (codes "principal")
          (codes "principal.upserted payload missing principal doc (pre-V5 event)")
    ok (record state { principals = insert native_id doc state.principals })

  promote : EventEnvelope json → FoldedState json → AuthzResult (FoldedState json)
  unfolding payload_str
  promote event state = do
    fgrn ← payload_str event (codes "fgrn")
    resource_type ← payload_str event (codes "resource_type")
    native_id ← payload_str event (codes "native_id")
    ok (record state { promotions = insert (resource_type, native_id) fgrn state.promotions })

  tombstone : EventEnvelope json → FoldedState json → AuthzResult (FoldedState json)
  unfolding payload_str
  tombstone event state = do
    resource_type ← payload_str event (codes "resource_type")
    native_id ← payload_str event (codes "native_id")
    ok (record state { promotions = remove (resource_type, native_id) state.promotions })

  set_org : EventEnvelope json → FoldedState json → AuthzResult (FoldedState json)
  unfolding unfoldable_error
  set_org event state = do
    ensure (json.is_object (index json event.payload (codes "organization")))
        (unfoldable_error event (missing event (codes "object field organization")))
    ok (record state { org = some event.payload })

  set_keys : EventEnvelope json → FoldedState json → AuthzResult (FoldedState json)
  unfolding payload_get
  set_keys event state = do
    keys ← payload_get event (codes "keys") (missing event (codes "field keys"))
    ok (record state { org_keys = some keys })

  put_group : EventEnvelope json → FoldedState json → AuthzResult (FoldedState json)
  unfolding payload_str payload_get
  put_group event state = do
    name ← payload_str event (codes "name")
    group ← payload_get event (codes "group") (missing event (codes "field group"))
    ok (record state { groups = insert name group state.groups })

  delete_group : EventEnvelope json → FoldedState json → AuthzResult (FoldedState json)
  unfolding payload_str
  delete_group event state = do
    name ← payload_str event (codes "name")
    ok (record state { groups = remove name state.groups })

  no_rule : EventEnvelope json → AuthzResult (FoldedState json)
  unfolding unfoldable_error
  no_rule event = err (unfoldable_error event (codes "no fold rule for kind " ++ as_str event.kind))

  dispatch : EventKind → EventEnvelope json → FoldedState json → AuthzResult (FoldedState json)
  dispatch principal_upserted event state = upsert_principal event state
  dispatch resource_promoted event state = promote event state
  dispatch resource_tombstoned event state = tombstone event state
  dispatch org_created event state = set_org event state
  dispatch org_updated event state = set_org event state
  dispatch org_activated event state = set_org event state
  dispatch org_suspended event state = set_org event state
  dispatch org_restored event state = set_org event state
  dispatch org_key_generated event state = set_keys event state
  dispatch org_key_revoked event state = set_keys event state
  dispatch org_key_rotated event state = set_keys event state
  dispatch group_put event state = put_group event state
  dispatch group_deleted event state = delete_group event state
  dispatch _ event state = no_rule event

  unfoldable pub apply_event :
      EventEnvelope json → FoldedState json → AuthzResult (FoldedState json)
  unfolding dispatch upsert_principal promote tombstone set_org set_keys put_group delete_group
      no_rule
  apply_event event state = dispatch event.kind event state

  gap_error : EventEnvelope json → ℕ → Error
  gap_error event expected =
      Error.unfoldable_event event.seq (codes "event log gap: expected seq " ++ decimal expected)

  -- The loop of `fold_events`, at the event that should have the number `expected`.
  fold_from : ℕ → ℕ → List (EventEnvelope json) → FoldedState json → AuthzResult (FoldedState json)
  fold_from requested expected [] state = ok state
  fold_from requested expected (event ∷ events) state =
      let rest = (do
        next ← apply_event event state
        fold_from requested (suc expected) events next) in
      if not (event.seq =ℕ expected)
      then err (gap_error event expected)
      else if ltb requested event.seq
      then ok state
      else rest

  unfoldable pub fold_events : List (EventEnvelope json) → ℕ → AuthzResult (FoldedState json)
  unfolding fold_from gap_error
  fold_events events requested =
      let latest = latest_revision events in
      if requested =ℕ 0 || ltb latest requested
      then err (Error.unknown_revision requested latest)
      else fold_from requested 1 events (empty_at json requested)
