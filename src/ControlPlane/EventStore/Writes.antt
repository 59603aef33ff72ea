-- ===== src/ControlPlane/EventStore/Writes.antt =====
-- Every operation of the store that succeeds keeps the maps what the logs say.
use forgeguard.Base.{
  ℕ, ◌≡◌, subst, inl, inr, Str, [], Option, none, some, arith, Bool-cases, nat_eq, list_eq, pair_eq,
}
use forgeguard.Base.Assoc.{lookup, contains_key}
use forgeguard.Base.Result.{Result, ok, >>=-eq-ok, map_err}
use forgeguard.Core.Segment.{Segment}
use forgeguard.Core.Fgrn
use forgeguard.Core.NativeId.{NativeId}
use forgeguard.Authz.Kind.{EventKind, org_key_generated, org_key_rotated}
use forgeguard.Authz.Event.{Actor}
use forgeguard.Authz.Event.Payload.{decide_upsert_lem}
use forgeguard.Authz.Event.Effects.{OrgKind, KeyKind, org, keys, kind_of}
use forgeguard.Authz.Rbac.{RbacEntry}
use forgeguard.ControlPlane.Error.{Error}
use forgeguard.ControlPlane.SigningKey.{GenerateKeyResult, to_entry}
use forgeguard.ControlPlane.EventStore.{
  Outside, Fault, failed, Stamp, GroupWriteOutcome, OrgRecord, Keys, EventStore,
  check_expected_revision,
}
use forgeguard.ControlPlane.EventStore.Entities.{
  put_promotion, promotion_fgrn, tombstone_stored, store_org,
}
use forgeguard.ControlPlane.EventStore.Keys.{
  keys_of, check_org, append_org_keys, key_change, always, generate_org_key,
  generate_key_transition, rotate_key_transition, rotate_org_key,
}
use forgeguard.ControlPlane.EventStore.Groups.{
  put_group, delete_group, store_group, drop_group, group_values,
}
use forgeguard.ControlPlane.EventStore.View.{IsFaithful}
use forgeguard.ControlPlane.EventStore.Changes.{
  promoted-IsFaithful, tombstoned-IsFaithful, org-IsFaithful, keys-IsFaithful,
  group_stored-IsFaithful, group_removed-IsFaithful,
}

module _ (o : Outside) where
  -- The kind of an event about an organization: `update_org` and `transition_org` have one each.
  abbrev pub event_kind : OrgKind → EventKind
  event_kind kind = kind_of {json = o.json} (org kind [] none)

  unfoldable pub AllFaithful : EventStore o → Type 0
  AllFaithful s = (org_id : Str) → IsFaithful o s org_id

  -- What an operation returns is the store that it is found to be.
  settle :
      {A : Type 0} {s t : EventStore o} {x y : A}
      → ◌≡◌ {A = Result Fault (EventStore o × A)} (ok (s, x)) (ok (t, y))
      → AllFaithful s
      → AllFaithful t
  settle e = subst AllFaithful cc

  pub put_promotion-AllFaithful :
      (s t : EventStore o) (stamp : Stamp) (org_id : Str) (resource_type : Segment) (id : NativeId)
      (actor : Actor) (n : ℕ)
      → put_promotion o stamp org_id resource_type id actor s ≡ ok (t, n)
      → AllFaithful s
      → AllFaithful t
  unfolding put_promotion AllFaithful
  put_promotion-AllFaithful s t stamp org_id resource_type id actor n e h =
      let (fgrn, _, same) = >>=-eq-ok (promotion_fgrn o org_id resource_type id) _ e in
      settle same (promoted-IsFaithful o s stamp org_id actor h fgrn resource_type id)

  pub tombstone_stored-AllFaithful :
      (s t : EventStore o) (stamp : Stamp) (org_id : Str) (resource_type : Segment) (id : NativeId)
      (actor : Actor) (stored : Option Str) (n : Option ℕ)
      → tombstone_stored o stamp org_id resource_type id actor s stored ≡ ok (t, n)
      → AllFaithful s
      → AllFaithful t
  unfolding tombstone_stored AllFaithful
  tombstone_stored-AllFaithful s t stamp org_id resource_type id actor none n e h = settle e h
  tombstone_stored-AllFaithful s t stamp org_id resource_type id actor (some stored) n e h =
      let (fgrn, _, same) = >>=-eq-ok (map_err _ (Fgrn.parse stored)) _ e in
      settle same (tombstoned-IsFaithful o s stamp org_id actor h fgrn resource_type id)

  pub store_org-AllFaithful :
      (s t : EventStore o) (stamp : Stamp) (r : OrgRecord o) (kind : OrgKind) (actor : Actor)
      (n : ℕ)
      → ◌≡◌ {A = Result Fault (EventStore o × ℕ)}
          (ok (store_org o stamp r (event_kind kind) actor s))
          (ok (t, n))
      → AllFaithful s
      → AllFaithful t
  unfolding store_org AllFaithful
  store_org-AllFaithful s t stamp r OrgKind.created actor n e h =
      settle e (org-IsFaithful o s stamp r.org.org_id.raw actor h OrgKind.created r _)
  store_org-AllFaithful s t stamp r OrgKind.updated actor n e h =
      settle e (org-IsFaithful o s stamp r.org.org_id.raw actor h OrgKind.updated r _)
  store_org-AllFaithful s t stamp r OrgKind.activated actor n e h =
      settle e (org-IsFaithful o s stamp r.org.org_id.raw actor h OrgKind.activated r _)
  store_org-AllFaithful s t stamp r OrgKind.suspended actor n e h =
      settle e (org-IsFaithful o s stamp r.org.org_id.raw actor h OrgKind.suspended r _)
  store_org-AllFaithful s t stamp r OrgKind.restored actor n e h =
      settle e (org-IsFaithful o s stamp r.org.org_id.raw actor h OrgKind.restored r _)

  pub key_change-AllFaithful :
      (s t : EventStore o) (stamp : Stamp) (org_id : Str) (kind : KeyKind) (actor : Actor)
      (change : Option (Str × Keys o)) (n : Option ℕ)
      → key_change o stamp org_id
          (kind_of {json = o.json} (keys kind [] o.json.null))
          actor
          s
          change
        ≡ ok (t, n)
      → AllFaithful s
      → AllFaithful t
  unfolding key_change AllFaithful
  key_change-AllFaithful s t stamp org_id kind actor none n e h = settle e h
  key_change-AllFaithful s t stamp org_id KeyKind.generated actor (some (id, new_keys)) n e h =
      settle e (keys-IsFaithful o s stamp org_id actor h KeyKind.generated id new_keys _)
  key_change-AllFaithful s t stamp org_id KeyKind.revoked actor (some (id, new_keys)) n e h =
      settle e (keys-IsFaithful o s stamp org_id actor h KeyKind.revoked id new_keys _)
  key_change-AllFaithful s t stamp org_id KeyKind.rotated actor (some (id, new_keys)) n e h =
      settle e (keys-IsFaithful o s stamp org_id actor h KeyKind.rotated id new_keys _)

  pub append_org_keys-AllFaithful :
      (s t : EventStore o) (stamp : Stamp) (org_id : Str) (kind : KeyKind) (actor : Actor)
      (transition : Keys o → Result Error (Option (Str × Keys o))) (n : Option ℕ)
      → append_org_keys o stamp org_id
          (kind_of {json = o.json} (keys kind [] o.json.null))
          actor
          transition
          s
        ≡ ok (t, n)
      → AllFaithful s
      → AllFaithful t
  unfolding append_org_keys
  append_org_keys-AllFaithful s t stamp org_id kind actor transition n e h =
      let (_, _, e₁) = >>=-eq-ok (check_org o org_id s) _ e in
      let (change, _, e₂) = >>=-eq-ok (map_err failed (transition (keys_of o s org_id))) _ e₁ in
      key_change-AllFaithful s t stamp org_id kind actor change n e₂ h

  always-eq-ok :
      (material : GenerateKeyResult o.clock) (outcome : EventStore o × Option ℕ) {t : EventStore o}
      {given : GenerateKeyResult o.clock × ℕ}
      → always o material outcome ≡ ok (t, given)
      → outcome.0 ≡ t
  unfolding always
  always-eq-ok material (s, none) e = cc
  always-eq-ok material (s, some n) e = cc

  pub store_group-AllFaithful :
      (s t : EventStore o) (stamp : Stamp) (org_id : Str) (entry : RbacEntry) (actor : Actor)
      (expected : Option ℕ) (outcome : GroupWriteOutcome)
      → store_group o stamp org_id entry actor expected s ≡ ok (t, outcome)
      → AllFaithful s
      → AllFaithful t
  unfolding store_group AllFaithful
  store_group-AllFaithful s t stamp org_id entry actor expected outcome e h =
      let (_, _, same) = >>=-eq-ok (check_expected_revision o _ expected) _ e in
      settle same (group_stored-IsFaithful o s stamp org_id actor h entry _)

  pub drop_group-AllFaithful :
      (s t : EventStore o) (stamp : Stamp) (org_id name : Str) (actor : Actor) (expected : Option ℕ)
      (outcome : GroupWriteOutcome)
      → drop_group o stamp org_id name actor expected s ≡ ok (t, outcome)
      → AllFaithful s
      → AllFaithful t
  unfolding drop_group AllFaithful
  drop_group-AllFaithful s t stamp org_id name actor expected outcome e h =
      let (_, _, same) = >>=-eq-ok (check_expected_revision o _ expected) _ e in
      settle same (group_removed-IsFaithful o s stamp org_id actor h name _)

  pub generate-AllFaithful :
      (s t : EventStore o) (stamp : Stamp) (org_id : Str) (actor : Actor)
      (material : Result Error (GenerateKeyResult o.clock)) (given : GenerateKeyResult o.clock × ℕ)
      → generate_org_key o stamp org_id actor material s ≡ ok (t, given)
      → AllFaithful s
      → AllFaithful t
  unfolding generate_org_key
  generate-AllFaithful s t stamp org_id actor material given e h =
      let (result, _, e₁) = >>=-eq-ok (map_err failed material) _ e in
      let (entry, _, e₂) = >>=-eq-ok (map_err failed (to_entry result)) _ e₁ in
      let ((u, n), appended, e₃) =
        >>=-eq-ok
          (append_org_keys o stamp org_id org_key_generated actor
            (generate_key_transition o entry result.key_id) s)
          _ e₂ in
      subst AllFaithful (always-eq-ok result (u, n) e₃)
        (append_org_keys-AllFaithful s u stamp org_id KeyKind.generated actor _ n appended h)

  pub rotate-AllFaithful :
      (s t : EventStore o) (stamp : Stamp) (org_id key_id : Str) (actor : Actor)
      (material : Result Error (GenerateKeyResult o.clock)) (now : o.clock.Time)
      (given : GenerateKeyResult o.clock × ℕ)
      → rotate_org_key o stamp org_id key_id actor material now s ≡ ok (t, given)
      → AllFaithful s
      → AllFaithful t
  unfolding rotate_org_key
  rotate-AllFaithful s t stamp org_id key_id actor material now given e h =
      let (result, _, e₁) = >>=-eq-ok (map_err failed material) _ e in
      let (entry, _, e₂) = >>=-eq-ok (map_err failed (to_entry result)) _ e₁ in
      let ((u, n), appended, e₃) =
        >>=-eq-ok
          (append_org_keys o stamp org_id org_key_rotated actor
            (rotate_key_transition o key_id entry now) s)
          _ e₂ in
      subst AllFaithful (always-eq-ok result (u, n) e₃)
        (append_org_keys-AllFaithful s u stamp org_id KeyKind.rotated actor _ n appended h)

  pub put_group-AllFaithful :
      (s t : EventStore o) (stamp : Stamp) (org_id : Str) (entry : RbacEntry) (actor : Actor)
      (expected : Option ℕ) (outcome : GroupWriteOutcome)
      → put_group o stamp org_id entry actor expected s ≡ ok (t, outcome)
      → AllFaithful s
      → AllFaithful t
  unfolding put_group
  put_group-AllFaithful s t stamp org_id entry actor expected outcome e h =
      elim (decide_upsert_lem o.json (group_values o (lookup (org_id, entry.name) s.groups))
        (o.group_value entry)).1 [
          | inl m ↦ subst AllFaithful (ground (arith, m)) h
          | inr m ↦
              store_group-AllFaithful s t stamp org_id entry actor expected outcome
                (ground (arith, m)) h
        ]

  pub delete_group-AllFaithful :
      (s t : EventStore o) (stamp : Stamp) (org_id name : Str) (actor : Actor) (expected : Option ℕ)
      (outcome : GroupWriteOutcome)
      → delete_group o stamp org_id name actor expected s ≡ ok (t, outcome)
      → AllFaithful s
      → AllFaithful t
  unfolding delete_group
  delete_group-AllFaithful s t stamp org_id name actor expected outcome e h =
      elim (Bool-cases (contains_key s.groups (org_id, name))) [
        | inl y ↦
            drop_group-AllFaithful s t stamp org_id name actor expected outcome (ground (arith, y))
              h
        | inr n ↦ subst AllFaithful (ground (arith, n)) h
      ]
