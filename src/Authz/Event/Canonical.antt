-- ===== src/Authz/Event/Canonical.antt =====
-- crates/authz-core/src/event/canonical.rs: the bytes that the signature of an event is over.
-- `serde_json::to_vec` and the hexadecimal digest of the sha2 and hex crates are parameters.
pub mod Signed
use forgeguard.Base.{ℕ, Str, Bool, true, false, [], ◌∷◌, ◌++◌, codes, Option, none, some}
use forgeguard.Base.Text.{decimal}
use forgeguard.Base.Text.Framing.{newline}
use forgeguard.Authz.Json.{Json}
use forgeguard.Authz.Kind.{as_str}
use forgeguard.Authz.Event.{EventDraft, EventEnvelope, schema_version}

module _ (json : Json) where
  pub record CanonicalFields : Type 0 where
    pub seq : ℕ
    pub event_id : Str
    pub kind : Str
    pub occurred_at : Str
    pub narrowing : Bool
    pub schema_version : ℕ
    pub payload : json.Value

module _ {json : Json} where
  -- `From<&EventDraft>`
  unfoldable pub draft_fields : EventDraft json → CanonicalFields json
  draft_fields draft = record {
    seq = draft.seq;
    event_id = draft.event_id.raw;
    kind = as_str draft.kind;
    occurred_at = draft.occurred_at;
    narrowing = draft.narrowing;
    schema_version = schema_version;
    payload = draft.payload;
  }

  -- `From<&EventEnvelope>`
  unfoldable pub envelope_fields : EventEnvelope json → CanonicalFields json
  envelope_fields envelope = record {
    seq = envelope.seq;
    event_id = envelope.event_id.raw;
    kind = as_str envelope.kind;
    occurred_at = envelope.occurred_at;
    narrowing = envelope.narrowing;
    schema_version = envelope.schema_version;
    payload = envelope.payload;
  }

-- `Display` of `bool`
abbrev pub bool_text : Bool → Str
bool_text true = codes "true"
bool_text false = codes "false"

-- "{label}{value}\n" in front of `rest`.
abbrev pub line : Str → Str → Str → Str
line label value rest = label ++ (value ++ newline ∷ rest)

module _ (json : Json) (to_vec : json.Value → Option Str) (sha256_hex : Str → Str) where
  -- `hex::encode(Sha256::digest(to_vec(payload).unwrap_or_default()))`
  abbrev pub payload_sha256 : json.Value → Str
  payload_sha256 payload = elim (to_vec payload) [
    | none ↦ sha256_hex []
    | some bytes ↦ sha256_hex bytes
  ]

  unfoldable pub canonical_bytes : CanonicalFields json → Str → Str
  canonical_bytes fields org_id = line (codes "forgeguard-event-v1") [] (
      line (codes "org:") org_id (
        line (codes "seq:") (decimal fields.seq) (
          line (codes "event_id:") fields.event_id (
            line (codes "kind:") fields.kind (
              line (codes "occurred_at:") fields.occurred_at (
                line (codes "narrowing:") (bool_text fields.narrowing) (
                  line (codes "schema_version:") (decimal fields.schema_version)
                    (line (codes "payload_sha256:") (payload_sha256 fields.payload) []))))))))

  unfoldable pub canonical_event_bytes : EventDraft json → Str → Str
  canonical_event_bytes draft org_id = canonical_bytes (draft_fields draft) org_id

  unfoldable pub canonical_envelope_bytes : EventEnvelope json → Str → Str
  canonical_envelope_bytes envelope org_id = canonical_bytes (envelope_fields envelope) org_id
