-- ===== src/Authz/Tests.antt =====
-- A small organization's log, and a store of two revisions. The JSON values are texts, objects and
-- `null`.
use forgeguard.Base.{
  ◌≡◌, ◌↔◌, ◌++◌, refl, ℕ, Str, Option, true, false, List, [], ◌∷◌, codes, nat_eq, list_eq, arith,
  take,
}
use forgeguard.Base.Text.{decimal}
use forgeguard.Base.Result.{ok}
use forgeguard.Authz.Json.Texts.{json, text}
use forgeguard.Authz.Kind.{group_put}
use forgeguard.Authz.Event.{EventDraft, EventEnvelope, system, IsNumbered}
use forgeguard.Authz.Event.Canonical.{
  canonical_event_bytes, canonical_envelope_bytes, canonical_bytes, draft_fields,
}
use forgeguard.Authz.Event.Canonical.Signed.{canonical_event_bytes_iff}
use forgeguard.Authz.Event.Fold.{empty_at, fold_events}
use forgeguard.Authz.Event.Fold.Replay.{fold_events_prefix, fold_events-IsNumbered}
use forgeguard.Authz.Event.Effects.{
  Change, kind_of, payload_of, group_stored, group_removed, effects, Records,
}
use forgeguard.Authz.Event.Effects.History.{fold_events-effects}

abbrev event : ℕ → Change json → EventEnvelope json
event n c = record {
  event_id = record { raw = codes "e" };
  seq = n;
  kind = kind_of c;
  occurred_at = codes "2026-01-01T00:00:00Z";
  actor = system;
  narrowing = false;
  schema_version = 1;
  payload = payload_of c;
  key_id = codes "k";
  signature = codes "s";
}

abbrev changes : List (Change json)
changes = group_stored (codes "admins") (text (codes "doc")) ∷ group_removed (codes "admins") ∷ []

abbrev log : List (EventEnvelope json)
log =
    event 1 (group_stored (codes "admins") (text (codes "doc")))
    ∷ event 2 (group_removed (codes "admins"))
    ∷ []

fold_events_prefix_example :
    fold_events (log ++ event 3 (group_removed (codes "x")) ∷ []) 1 ≡ fold_events log 1
fold_events_prefix_example =
    fold_events_prefix log (event 3 (group_removed (codes "x")) ∷ []) 1 (refl, (refl, (refl, tt)))
      (omega arith) (omega arith)

recorded : Records log changes
recorded = ((refl, refl), ((refl, refl), tt))

fold_events-effects_example : fold_events log 2 ≡ ok (effects changes (empty_at json 2))
fold_events-effects_example =
    fold_events-effects log changes 2 (refl, (refl, tt)) recorded (omega arith) (omega arith)

fold_log : fold_events log 2 ≡ ok (effects changes (empty_at json 2))
fold_log = fold_events-effects log changes 2 (refl, (refl, tt)) recorded (omega arith) (omega arith)

fold_events-IsNumbered_example : IsNumbered 1 (take 2 log)
fold_events-IsNumbered_example =
    fold_events-IsNumbered log 2 (effects changes (empty_at json 2)) fold_log

-- A draft of the first event of an organization, and the envelope that seals it.
abbrev draft : EventDraft json
draft = record {
  event_id = record { raw = codes "01J000000000000000000000" };
  seq = 1;
  kind = group_put;
  occurred_at = codes "2026-07-14T00:00:00Z";
  actor = system;
  narrowing = true;
  payload = text (codes "doc");
}

abbrev sealed : EventEnvelope json
sealed = record {
  event_id = record { raw = codes "01J000000000000000000000" };
  seq = 1;
  kind = group_put;
  occurred_at = codes "2026-07-14T00:00:00Z";
  actor = system;
  narrowing = true;
  schema_version = 1;
  payload = text (codes "doc");
  key_id = codes "key-1";
  signature = codes "c2ln";
}

abbrev to_vec : json.Value → Option Str
to_vec v = json.as_str v

canonical_event_bytes_iff_example :
    (canonical_event_bytes json to_vec (λ s. s) draft (codes "acme")
      ≡ canonical_envelope_bytes json to_vec (λ s. s) sealed (codes "acme"))
    ↔ ((codes "acme" ≡ codes "acme")
        × (◌≡◌ {A = ℕ} 1 1)
        × (codes "01J000000000000000000000" ≡ codes "01J000000000000000000000")
        × (group_put ≡ group_put)
        × (codes "2026-07-14T00:00:00Z" ≡ codes "2026-07-14T00:00:00Z")
        × (true ≡ true)
        × (◌≡◌ {A = ℕ} 1 1)
        × (codes "doc" ≡ codes "doc"))
canonical_event_bytes_iff_example =
    canonical_event_bytes_iff json to_vec (λ s. s) draft sealed (codes "acme") (codes "acme") refl
      refl (omega arith, refl, refl) (omega arith, refl, refl) (omega arith)

-- The bytes of the draft, as the repository's own test pins them but for the digest.
signed_bytes :
    canonical_event_bytes json to_vec (λ s. s) draft (codes "acme")
    ≡ codes
        "forgeguard-event-v1\norg:acme\nseq:1\nevent_id:01J000000000000000000000\nkind:group.put\noccurred_at:2026-07-14T00:00:00Z\nnarrowing:true\nschema_version:1\npayload_sha256:doc\n"
unfolding canonical_event_bytes canonical_bytes draft_fields decimal
signed_bytes = refl
