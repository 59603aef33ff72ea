-- ===== src/Authz/Event/Canonical/Signed.antt =====
-- What the signature of an event covers.
use forgeguard.Base.{
  ℕ, ◌<◌, ◌^◌, ◌≡◌, ◌∙◌, ◌↔◌, refl, sym, ap, Str, Bool, true, false, [], ◌∷◌, ◌++◌, codes, Option,
  nat_eq, arith,
}
use forgeguard.Base.Text.{decimal}
use forgeguard.Base.Text.Decimal.{decimal_inj, contains-decimal}
use forgeguard.Base.Text.Framing.{newline, IsLine, cut, uncut, uncut_end}
use forgeguard.Base.Result.{ok}
use forgeguard.Authz.Json.{Json}
use forgeguard.Authz.Kind.{EventKind, org_created, as_str, from_str-as_str, from_str}
use forgeguard.Authz.Event.{EventDraft, EventEnvelope, from_signed, schema_version}
use forgeguard.Authz.Event.Canonical.{
  CanonicalFields, draft_fields, envelope_fields, bool_text, line, payload_sha256, canonical_bytes,
  canonical_event_bytes, canonical_envelope_bytes,
}

bool_text-IsLine : (b : Bool) → IsLine (bool_text b)
bool_text-IsLine true = refl
bool_text-IsLine false = refl

bool_text_inj : (a b : Bool) → bool_text a ≡ bool_text b → a ≡ b
bool_text_inj true true e = refl
bool_text_inj true false e = absurd (cc)
bool_text_inj false true e = absurd (cc)
bool_text_inj false false e = refl

as_str-IsLine : (k : EventKind) → IsLine (as_str k)
as_str-IsLine org_created = refl
as_str-IsLine k = refl

as_str_inj : (k k' : EventKind) → as_str k ≡ as_str k' → k ≡ k'
as_str_inj k k' e =
    let same : ok k ≡ ok k' = sym (from_str-as_str k) ∙ ap from_str e ∙ from_str-as_str k' in cc

-- The same line in front of both, but for its value.
line_inj :
    (label s t r u : Str)
    → IsLine s
    → IsLine t
    → line label s r ≡ line label t u
    → (s ≡ t) × (r ≡ u)
line_inj label s t r u hs ht e = cut newline s t r u hs ht (uncut label _ _ e)

module _ (json : Json) (to_vec : json.Value → Option Str) (sha256_hex : Str → Str) where
  -- What the signed bytes say of an event.
  abbrev Same : CanonicalFields json → Str → CanonicalFields json → Str → Type 0
  Same f org g org' =
      (org ≡ org')
      × (f.seq ≡ g.seq)
      × (f.event_id ≡ g.event_id)
      × (f.kind ≡ g.kind)
      × (f.occurred_at ≡ g.occurred_at)
      × (f.narrowing ≡ g.narrowing)
      × (f.schema_version ≡ g.schema_version)
      × (payload_sha256 json to_vec sha256_hex f.payload
          ≡ payload_sha256 json to_vec sha256_hex g.payload)

  -- Fields that fit on their lines.
  abbrev AreLines : CanonicalFields json → Type 0
  AreLines f =
      (f.seq < 2 ^ 64)
      × IsLine f.event_id
      × IsLine f.kind
      × IsLine f.occurred_at
      × (f.schema_version < 2 ^ 64)

  decimal-line_inj :
      (label : Str) (m n : ℕ) (r u : Str)
      → m < 2 ^ 64
      → n < 2 ^ 64
      → line label (decimal m) r ≡ line label (decimal n) u
      → (m ≡ n) × (r ≡ u)
  decimal-line_inj label m n r u hm hn e =
      let (same, rest) =
        line_inj label (decimal m) (decimal n) r u (contains-decimal newline m (omega arith))
          (contains-decimal newline n (omega arith)) e in
      (decimal_inj m n hm hn same, rest)

  canonical_bytes_inj :
      (f g : CanonicalFields json) (org org' : Str)
      → AreLines f
      → AreLines g
      → IsLine org
      → IsLine org'
      → canonical_bytes json to_vec sha256_hex f org ≡ canonical_bytes json to_vec sha256_hex g org'
      → Same f org g org'
  unfolding canonical_bytes
  canonical_bytes_inj f g org org' (fs, fe, fk, fo, fv) (gs, ge, gk, go, gv) ho ho' e =
      let e = uncut (codes "forgeguard-event-v1" ++ newline ∷ []) _ _ e in
      let (same_org, e) = line_inj (codes "org:") org org' _ _ ho ho' e in
      let (same_seq, e) = decimal-line_inj (codes "seq:") f.seq g.seq _ _ fs gs e in
      let (same_id, e) = line_inj (codes "event_id:") f.event_id g.event_id _ _ fe ge e in
      let (same_kind, e) = line_inj (codes "kind:") f.kind g.kind _ _ fk gk e in
      let (same_time, e) =
        line_inj (codes "occurred_at:") f.occurred_at g.occurred_at _ _ fo go e in
      let (same_narrowing, e) =
        line_inj (codes "narrowing:") (bool_text f.narrowing) (bool_text g.narrowing) _ _
          (bool_text-IsLine f.narrowing) (bool_text-IsLine g.narrowing) e in
      let (same_version, e) =
        decimal-line_inj (codes "schema_version:") f.schema_version g.schema_version _ _ fv gv e in
      (
        same_org,
        same_seq,
        same_id,
        same_kind,
        same_time,
        bool_text_inj f.narrowing g.narrowing same_narrowing,
        same_version,
        uncut_end newline _ _ (uncut (codes "payload_sha256:") _ _ e),
      )

  canonical_bytes-Same :
      (f g : CanonicalFields json) (org org' : Str)
      → Same f org g org'
      → canonical_bytes json to_vec sha256_hex f org ≡ canonical_bytes json to_vec sha256_hex g org'
  unfolding canonical_bytes
  canonical_bytes-Same f g org org' (ho, hs, he, hk, ht, hn, hv, hp) =
      rw (ho, hs, he, hk, ht, hn, hv, hp) refl

  -- An envelope is sealed with the bytes that its draft had.
  pub canonical_envelope_bytes-from_signed :
      (draft : EventDraft json) (key_id signature org_id : Str)
      → canonical_envelope_bytes json to_vec sha256_hex (from_signed draft key_id signature) org_id
        ≡ canonical_event_bytes json to_vec sha256_hex draft org_id
  unfolding canonical_envelope_bytes canonical_event_bytes envelope_fields draft_fields from_signed
  canonical_envelope_bytes-from_signed draft key_id signature org_id = refl

  -- What a `u64` number, an event id and a time must be for each to stand on its line.
  abbrev pub Fits : ℕ → Str → Str → Type 0
  Fits seq event_id occurred_at = (seq < 2 ^ 64) × IsLine event_id × IsLine occurred_at

  -- A stored envelope has the signed bytes of a draft exactly if it agrees with the draft in the
  -- organization, the sequence number, the event id, the kind, the time, the narrowing flag, the
  -- schema version and the digest of the payload's bytes: a signature says all of these, and nothing
  -- of the actor or the key. The sequence numbers are `u64` and the version is a `u32`; no line
  -- break is in an organization's id, an event id or a time.
  pub canonical_event_bytes_iff :
      (draft : EventDraft json) (envelope : EventEnvelope json) (org org' : Str)
      → IsLine org
      → IsLine org'
      → Fits draft.seq draft.event_id.raw draft.occurred_at
      → Fits envelope.seq envelope.event_id.raw envelope.occurred_at
      → envelope.schema_version < 2 ^ 32
      → (canonical_event_bytes json to_vec sha256_hex draft org
          ≡ canonical_envelope_bytes json to_vec sha256_hex envelope org')
        ↔ ((org ≡ org')
            × (draft.seq ≡ envelope.seq)
            × (draft.event_id.raw ≡ envelope.event_id.raw)
            × (draft.kind ≡ envelope.kind)
            × (draft.occurred_at ≡ envelope.occurred_at)
            × (draft.narrowing ≡ envelope.narrowing)
            × (schema_version ≡ envelope.schema_version)
            × (payload_sha256 json to_vec sha256_hex draft.payload
                ≡ payload_sha256 json to_vec sha256_hex envelope.payload))
  unfolding canonical_event_bytes canonical_envelope_bytes envelope_fields draft_fields
  canonical_event_bytes_iff draft envelope org org' ho ho' (ds, di, dt) (es, ei, et) ev =
      let f = draft_fields draft in
      let g = envelope_fields envelope in
      let f_lines : AreLines f = (ds, di, as_str-IsLine draft.kind, dt, omega arith) in
      let g_lines : AreLines g = (es, ei, as_str-IsLine envelope.kind, et, omega arith) in
      (
        (λ e.
            let (same_org, same_seq, same_id, same_kind, same_time, narrow, version, digest) =
              canonical_bytes_inj f g org org' f_lines g_lines ho ho' e in
            (
              same_org,
              same_seq,
              same_id,
              as_str_inj draft.kind envelope.kind same_kind,
              same_time,
              narrow,
              version,
              digest,
            )),
        (λ (same_org, same_seq, same_id, same_kind, same_time, narrow, version, digest).
            canonical_bytes-Same f g org org' (
              same_org,
              same_seq,
              same_id,
              ap as_str same_kind,
              same_time,
              narrow,
              version,
              digest,
            )),
      )
