-- ===== src/ControlPlane/EventStore/Keys.antt =====
-- crates/control-plane/src/model_event_store/in_memory.rs: the request-signing keys, with the transitions of support.rs.
use forgeguard.Base.{ℕ, Str, [], ◌∷◌, ◌++◌, Option, none, some, codes, nat_eq, list_eq, pair_eq}
use forgeguard.Base.Assoc.{lookup, insert, contains_key}
use forgeguard.Base.Result.{Result, ok, err, ◌>>=◌, ◌>>◌, ensure, map_err}
use forgeguard.Authz.Kind.{EventKind, org_key_generated, org_key_revoked, org_key_rotated}
use forgeguard.Authz.Event.{Actor}
use forgeguard.Authz.Event.Payload.{key_event_payload}
use forgeguard.ControlPlane.Error.{Error, not_found}
use forgeguard.ControlPlane.SigningKey.{
  SigningKeyEntry, GenerateKeyResult, to_entry, rotate_entries, revoke_entries,
}
use forgeguard.ControlPlane.EventStore.{
  Outside, Fault, failed, unreachable, Stamp, Keys, keys_written, EventStore, next_revision,
  mint_and_push, write_through_for,
}

module _ (o : Outside) where
  -- The end of `append_org_keys`, with the key that a transition affects and the keys that it gives.
  unfoldable pub key_change :
      Stamp
      → Str
      → EventKind
      → Actor
      → EventStore o
      → Option (Str × Keys o)
      → Result Fault (EventStore o × Option ℕ)
  key_change stamp org_id kind actor s none = ok (s, none)
  key_change stamp org_id kind actor s (some (affected_key_id, new_keys)) = ok (
    record (mint_and_push o stamp org_id kind actor
        (key_event_payload o.json affected_key_id (o.keys_value new_keys)) s) {
          signing_keys = insert org_id new_keys s.signing_keys;
          org_store = write_through_for o org_id (λ id. keys_written id new_keys) s.org_store;
        },
    some (next_revision o s org_id),
  )

  abbrev pub keys_of : EventStore o → Str → Keys o
  keys_of s org_id = elim (lookup org_id s.signing_keys) [ none ↦ [] | some keys ↦ keys ]

  -- Its first guard.
  pub check_org : Str → EventStore o → Result Fault (Unit {0})
  check_org org_id s =
      ensure (contains_key s.orgs org_id)
        (failed (not_found (codes "organization '" ++ (org_id ++ codes "' not found"))))

  unfoldable pub append_org_keys :
      Stamp
      → Str
      → EventKind
      → Actor
      → (Keys o → Result Error (Option (Str × Keys o)))
      → EventStore o
      → Result Fault (EventStore o × Option ℕ)
  unfolding key_change
  append_org_keys stamp org_id kind actor transition s = do
    check_org org_id s
    change ← map_err failed (transition (keys_of s org_id))
    key_change stamp org_id kind actor s change

  abbrev pub generate_key_transition :
      SigningKeyEntry o.clock → Str → Keys o → Result Error (Option (Str × Keys o))
  generate_key_transition new_entry key_id keys = ok (some (key_id, keys ++ new_entry ∷ []))

  abbrev pub revoke_key_transition : Str → Keys o → Result Error (Option (Str × Keys o))
  revoke_key_transition target keys = elim (revoke_entries keys target) [
    | none ↦ ok none
    | some new_keys ↦ ok (some (target, new_keys))
  ]

  abbrev pub rotate_key_transition :
      Str → SigningKeyEntry o.clock → o.clock.Time → Keys o → Result Error (Option (Str × Keys o))
  rotate_key_transition target new_entry now keys = do
    updated ← rotate_entries keys target new_entry now o.rotation_grace
    ok (some (target, updated))

  -- The revision of a change that is never a no-op.
  unfoldable pub always :
      GenerateKeyResult o.clock
      → EventStore o × Option ℕ
      → Result Fault (EventStore o × (GenerateKeyResult o.clock × ℕ))
  always material (s, none) = err unreachable
  always material (s, some revision) = ok (s, (material, revision))

  -- The key material comes from a generator that may fail.
  unfoldable pub generate_org_key :
      Stamp
      → Str
      → Actor
      → Result Error (GenerateKeyResult o.clock)
      → EventStore o
      → Result Fault (EventStore o × (GenerateKeyResult o.clock × ℕ))
  unfolding always
  generate_org_key stamp org_id actor generated s = do
    material ← map_err failed generated
    new_entry ← map_err failed (to_entry material)
    outcome ←
        append_org_keys stamp org_id org_key_generated actor
          (generate_key_transition new_entry material.key_id) s
    always material outcome

  unfoldable pub revoke_org_key :
      Stamp → Str → Str → Actor → EventStore o → Result Fault (EventStore o × Option ℕ)
  revoke_org_key stamp org_id key_id actor s =
      append_org_keys stamp org_id org_key_revoked actor (revoke_key_transition key_id) s

  unfoldable pub rotate_org_key :
      Stamp
      → Str
      → Str
      → Actor
      → Result Error (GenerateKeyResult o.clock)
      → o.clock.Time
      → EventStore o
      → Result Fault (EventStore o × (GenerateKeyResult o.clock × ℕ))
  unfolding always
  rotate_org_key stamp org_id key_id actor generated now s = do
    material ← map_err failed generated
    new_entry ← map_err failed (to_entry material)
    outcome ←
        append_org_keys stamp org_id org_key_rotated actor
          (rotate_key_transition key_id new_entry now) s
    always material outcome
