-- ===== src/Authz/Event/Effects/Step.antt =====
-- What the events that the program builds do to the folded state.
use forgeguard.Base.{
  Str, ◌≡◌, refl, true, List, [], ◌∷◌, Option, none, some, codes, distinct, ◌∙◌, ap, nat_eq,
  list_eq, pair_eq,
}
use forgeguard.Base.Assoc.{lookup, keys as map_keys}
use forgeguard.Base.Result.{ok}
use forgeguard.Core.NativeId.{NativeId}
use forgeguard.Core.Segment.{Segment}
use forgeguard.Core.Fgrn.{Fgrn}
use forgeguard.Authz.Json.{Json, index}
use forgeguard.Authz.Kind.{
  principal_upserted, resource_promoted, resource_tombstoned, group_put, group_deleted,
}
use forgeguard.Authz.Event.{EventEnvelope}
use forgeguard.Authz.Event.Payload.{
  principal_event_payload, key_event_payload, org_event_payload, group_put_payload,
  group_deleted_payload, promotion_event_payload,
}
use forgeguard.Authz.Event.Fold.{FoldedState, apply_event}
use forgeguard.Authz.Event.Effects.{
  OrgKind, created, updated, activated, suspended, restored, KeyKind, generated, revoked, rotated,
  Change, upserted, promoted, tombstoned, org, keys, group_stored, group_removed, kind_of, effect,
  RecordsOne,
}

module _ {json : Json} (e : EventEnvelope json) (s : FoldedState json) where
  -- Reading a field of an object that the program built.
  get_field :
      (fields : List (Str × json.Value)) (k : Str) {v : json.Value}
      → e.payload ≡ json.object fields
      → distinct (map_keys fields) ≡ true
      → lookup k fields ≡ some v
      → json.get e.payload k ≡ some v
  get_field fields k p d found = rw p (json.get-object fields k d ∙ found)

  get_str :
      (fields : List (Str × json.Value)) (k v : Str)
      → e.payload ≡ json.object fields
      → distinct (map_keys fields) ≡ true
      → lookup k fields ≡ some (json.string v)
      → json.as_str (index json e.payload k) ≡ some v
  get_str fields k v p d found =
      ap (λ (o : Option json.Value). json.as_str (elim o [ none ↦ json.null | some x ↦ x ]))
        (get_field fields k p d found)
      ∙ json.as_str-string v

  upserted-effect :
      (id : NativeId) (doc : json.Value)
      → e.kind ≡ principal_upserted
      → e.payload ≡ principal_event_payload json id doc
      → apply_event e s ≡ ok (effect (upserted id doc) s)
  unfolding apply_event principal_event_payload lookup
  upserted-effect id doc k p =
      let fields : List (Str × json.Value) =
        (codes "native_id", json.string id.raw) ∷ (codes "principal", doc) ∷ [] in
      simp (
        k,
        get_str fields (codes "native_id") id.raw p refl refl,
        get_field fields (codes "principal") p refl refl,
      )

  module _ (f : Fgrn) (t : Segment) (n : NativeId) where
    promotion_fields : List (Str × json.Value)
    promotion_fields =
        (codes "fgrn", json.string f.raw)
        ∷ (codes "resource_type", json.string t.raw)
        ∷ (codes "native_id", json.string n.raw)
        ∷ []

    promoted-effect :
        e.kind ≡ resource_promoted
        → e.payload ≡ promotion_event_payload json f t n
        → apply_event e s ≡ ok (effect (promoted f t n) s)
    unfolding apply_event promotion_event_payload lookup promotion_fields
    promoted-effect k p = simp (
      k,
      get_str promotion_fields (codes "fgrn") f.raw p refl refl,
      get_str promotion_fields (codes "resource_type") t.raw p refl refl,
      get_str promotion_fields (codes "native_id") n.raw p refl refl,
    )

    tombstoned-effect :
        e.kind ≡ resource_tombstoned
        → e.payload ≡ promotion_event_payload json f t n
        → apply_event e s ≡ ok (effect (tombstoned f t n) s)
    unfolding apply_event promotion_event_payload lookup promotion_fields
    tombstoned-effect k p = simp (
      k,
      get_str promotion_fields (codes "resource_type") t.raw p refl refl,
      get_str promotion_fields (codes "native_id") n.raw p refl refl,
    )

  org_is_object :
      (o : List (Str × json.Value)) (c : Option json.Value)
      → e.payload ≡ org_event_payload json (json.object o) c
      → json.is_object (index json e.payload (codes "organization")) ≡ true
  unfolding org_event_payload lookup
  org_is_object o c p =
      let fields : List (Str × json.Value) =
        (codes "organization", json.object o)
        ∷ (codes "config", elim c [ none ↦ json.null | some x ↦ x ])
        ∷ [] in
      ap (λ (o : Option json.Value). json.is_object (elim o [ none ↦ json.null | some x ↦ x ]))
        (get_field fields (codes "organization") p refl refl)
      ∙ json.is_object-object o

  org-effect :
      (k : OrgKind) (o : List (Str × json.Value)) (c : Option json.Value)
      → e.kind ≡ kind_of {json = json} (org k o c)
      → e.payload ≡ org_event_payload json (json.object o) c
      → apply_event e s ≡ ok (effect (org k o c) s)
  unfolding apply_event
  org-effect created o c k p = simp (k, org_is_object o c p) (simp p)
  org-effect updated o c k p = simp (k, org_is_object o c p) (simp p)
  org-effect activated o c k p = simp (k, org_is_object o c p) (simp p)
  org-effect suspended o c k p = simp (k, org_is_object o c p) (simp p)
  org-effect restored o c k p = simp (k, org_is_object o c p) (simp p)

  keys-effect :
      (k : KeyKind) (id : Str) (v : json.Value)
      → e.kind ≡ kind_of {json = json} (keys k id v)
      → e.payload ≡ key_event_payload json id v
      → apply_event e s ≡ ok (effect (keys k id v) s)
  unfolding apply_event
  keys-effect k id v h p = elim_kind k h
    where
      fields : List (Str × json.Value)
      fields = (codes "key_id", json.string id) ∷ (codes "keys", v) ∷ []

      found : json.get e.payload (codes "keys") ≡ some v
      found = unfold key_event_payload lookup in get_field fields (codes "keys") p refl refl

      elim_kind :
          (k : KeyKind)
          → e.kind ≡ kind_of {json = json} (keys k id v)
          → apply_event e s ≡ ok (effect (keys k id v) s)
      elim_kind generated h = simp (h, found)
      elim_kind revoked h = simp (h, found)
      elim_kind rotated h = simp (h, found)

  group_stored-effect :
      (n : Str) (g : json.Value)
      → e.kind ≡ group_put
      → e.payload ≡ group_put_payload json n g
      → apply_event e s ≡ ok (effect (group_stored n g) s)
  unfolding apply_event group_put_payload lookup
  group_stored-effect n g h p =
      let fields : List (Str × json.Value) =
        (codes "name", json.string n) ∷ (codes "group", g) ∷ [] in
      simp (
        h,
        get_str fields (codes "name") n p refl refl,
        get_field fields (codes "group") p refl refl,
      )

  group_removed-effect :
      (n : Str)
      → e.kind ≡ group_deleted
      → e.payload ≡ group_deleted_payload json n
      → apply_event e s ≡ ok (effect (group_removed n) s)
  unfolding apply_event group_deleted_payload lookup
  group_removed-effect n h p =
      let fields : List (Str × json.Value) = (codes "name", json.string n) ∷ [] in
      simp (h, get_str fields (codes "name") n p refl refl)

module _ {json : Json} where
  pub apply_event-effect :
      (e : EventEnvelope json) (c : Change json) (s : FoldedState json)
      → RecordsOne e c
      → apply_event e s ≡ ok (effect c s)
  apply_event-effect e (upserted id doc) s (k, p) = upserted-effect e s id doc k p
  apply_event-effect e (promoted f t n) s (k, p) = promoted-effect e s f t n k p
  apply_event-effect e (tombstoned f t n) s (k, p) = tombstoned-effect e s f t n k p
  apply_event-effect e (org j o c) s (k, p) = org-effect e s j o c k p
  apply_event-effect e (keys j id v) s (k, p) = keys-effect e s j id v k p
  apply_event-effect e (group_stored n g) s (k, p) = group_stored-effect e s n g k p
  apply_event-effect e (group_removed n) s (k, p) = group_removed-effect e s n k p
