-- ===== src/Authz/Event.antt =====
-- crates/authz-core/src/event/envelope.rs, event/log.rs and store/revision.rs: drafts, signed
-- envelopes and the in-memory event log. A `Revision` is the number that it wraps.
pub mod Payload
pub mod Fold
pub mod Effects
pub mod Pages
pub mod Canonical
use forgeguard.Base.{
  ℕ, zero, suc, ◌+◌, Str, Bool, List, [], ◌∷◌, ◌++◌, Option, none, some, ltb, take, filter, last?,
  ◌≡◌, if◌then◌else◌,
}
use forgeguard.Base.Result.{ok, err}
use forgeguard.Core.Fgrn.{Fgrn}
use forgeguard.Authz.Error.{Error, AuthzResult}
use forgeguard.Authz.Json.{Json}
use forgeguard.Authz.Kind.{EventKind, narrowing}

abbrev pub schema_version : ℕ
schema_version = 1

pub record EventId : Type 0 where
  pub raw : Str

-- `EventId::try_new`
pub event_id_new : Str → AuthzResult EventId
event_id_new [] = err (Error.invalid_event_id [])
event_id_new (b ∷ s) = ok (record { raw = b ∷ s })

pub data Actor : Type 0 where
  principal : Fgrn → Actor
  machine : Str → Actor
  system : Actor

module _ (json : Json) where
  pub record EventDraftParams : Type 0 where
    pub event_id : EventId
    pub seq : ℕ
    pub kind : EventKind
    pub occurred_at : Str
    pub actor : Actor
    pub payload : json.Value

  pub record EventDraft : Type 0 where
    pub event_id : EventId
    pub seq : ℕ
    pub kind : EventKind
    pub occurred_at : Str
    pub actor : Actor
    pub narrowing : Bool
    pub payload : json.Value

  pub record EventEnvelope : Type 0 where
    pub event_id : EventId
    pub seq : ℕ
    pub kind : EventKind
    pub occurred_at : Str
    pub actor : Actor
    pub narrowing : Bool
    pub schema_version : ℕ
    pub payload : json.Value
    pub key_id : Str
    pub signature : Str

module _ {json : Json} where
  -- `EventDraft::new`
  unfoldable pub draft_new : EventDraftParams json → EventDraft json
  draft_new params = record {
    event_id = params.event_id;
    seq = params.seq;
    kind = params.kind;
    occurred_at = params.occurred_at;
    actor = params.actor;
    narrowing = narrowing params.kind;
    payload = params.payload;
  }

  unfoldable pub from_signed : EventDraft json → Str → Str → EventEnvelope json
  from_signed draft key_id signature = record {
    event_id = draft.event_id;
    seq = draft.seq;
    kind = draft.kind;
    occurred_at = draft.occurred_at;
    actor = draft.actor;
    narrowing = draft.narrowing;
    schema_version = schema_version;
    payload = draft.payload;
    key_id = key_id;
    signature = signature;
  }

  -- `InMemoryEventLog`: the events in the order of their appends.
  unfoldable pub push : List (EventEnvelope json) → EventEnvelope json → List (EventEnvelope json)
  push log envelope = log ++ envelope ∷ []

  unfoldable pub events_after : List (EventEnvelope json) → ℕ → ℕ → List (EventEnvelope json)
  events_after log after limit = take limit (filter (λ e. ltb after e.seq) log)

  unfoldable pub latest_revision : List (EventEnvelope json) → ℕ
  latest_revision log = elim (last? log) [ none ↦ 0 | some e ↦ e.seq ]

  -- The events have the sequence numbers `n`, `n + 1` and so on, with no gap.
  abbrev pub IsNumbered : ℕ → List (EventEnvelope json) → Type 0
  IsNumbered n [] = Unit
  IsNumbered n (e ∷ events) = (e.seq ≡ n) × IsNumbered (suc n) events
