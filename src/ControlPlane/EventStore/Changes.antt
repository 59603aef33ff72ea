-- ===== src/ControlPlane/EventStore/Changes.antt =====
-- What each write of the store makes of an organization's maps: the effect of the event's change.
use forgeguard.Base.{
  ◌≡◌, ◌∙◌, refl, ap, Str, false, List, Option, ◌==◌, nat_eq, list_eq, pair_eq, arith, ==_refl,
}
use forgeguard.Base.Assoc.{insert, remove, lookup-insert}
use forgeguard.Core.Segment.{Segment}
use forgeguard.Core.NativeId.{NativeId}
use forgeguard.Core.Fgrn.{Fgrn}
use forgeguard.Authz.Event.{Actor, draft_new, from_signed}
use forgeguard.Authz.Event.Fold.{FoldedState}
use forgeguard.Authz.Event.Effects.{
  Change, OrgKind, KeyKind, upserted, promoted, tombstoned, org, keys, group_stored, group_removed,
  kind_of, payload_of, effect,
}
use forgeguard.Authz.Rbac.{RbacEntry}
use forgeguard.ControlPlane.EventStore.{
  Outside, Stamp, OrgRecord, Keys, WriteThrough, EventStore, config_of, build_model_event,
  next_revision, mint_and_push,
}
use forgeguard.ControlPlane.EventStore.View.{
  Agrees, IsFaithful, push-IsFaithful, org_view, keys_view, group_view,
}
use forgeguard.ControlPlane.EventStore.Keyed.{
  insert_for, remove_for, insert_for_other, remove_for_other,
}

module _ (o : Outside) where
  -- The store with the event of a change in its log.
  abbrev pub recorded : EventStore o → Stamp → Str → Actor → Change o.json → EventStore o
  recorded s stamp org_id actor c = mint_and_push o stamp org_id (kind_of c) actor (payload_of c) s

  -- Where the maps are then as the change leaves them, every organization's log is still faithful.
  recorded-IsFaithful :
      (s t : EventStore o) (stamp : Stamp) (org_id : Str) (actor : Actor) (c : Change o.json)
      → t.logs ≡ (recorded s stamp org_id actor c).logs
      → ((f : FoldedState o.json) → Agrees o s org_id f → Agrees o t org_id (effect c f))
      → ((other : Str) (f : FoldedState o.json)
          → (org_id == other) ≡ false
          → Agrees o s other f
          → Agrees o t other f)
      → ((any_org : Str) → IsFaithful o s any_org)
      → (any_org : Str) → IsFaithful o t any_org
  unfolding build_model_event draft_new from_signed
  recorded-IsFaithful s t stamp org_id actor c logs =
      push-IsFaithful o s t org_id
        (build_model_event o stamp org_id (kind_of c) actor (payload_of c)
          (next_revision o s org_id))
        c logs refl (refl, refl)

  module _ (s : EventStore o) (stamp : Stamp) (org_id : Str) (actor : Actor)
      (h : (any_org : Str) → IsFaithful o s any_org) where
    pub upserted-IsFaithful :
        (id : NativeId) (doc : o.json.Value) (any_org : Str)
        → IsFaithful o
            (record (recorded s stamp org_id actor (upserted id doc)) {
              principals = insert (org_id, id.raw) doc s.principals;
            })
            any_org
    upserted-IsFaithful id doc =
        recorded-IsFaithful s _ stamp org_id actor (upserted id doc) refl
          (λ f a. record {
            principals = λ k.
                insert_for org_id id.raw k doc doc (λ v. v) s.principals f.principals refl
                  (a.principals k);
            promotions = a.promotions;
            org = a.org;
            org_keys = a.org_keys;
            groups = a.groups;
          })
          (λ other f n a. record {
            principals =
                λ k. insert_for_other org_id other id.raw k doc s.principals n ∙ a.principals k;
            promotions = a.promotions;
            org = a.org;
            org_keys = a.org_keys;
            groups = a.groups;
          })
          h

    pub promoted-IsFaithful :
        (fgrn : Fgrn) (resource_type : Segment) (id : NativeId) (any_org : Str)
        → IsFaithful o
            (record (recorded s stamp org_id actor (promoted fgrn resource_type id)) {
              promotions = insert (org_id, (resource_type.raw, id.raw)) fgrn.raw s.promotions;
            })
            any_org
    promoted-IsFaithful fgrn resource_type id =
        recorded-IsFaithful s _ stamp org_id actor (promoted fgrn resource_type id) refl
          (λ f a. record {
            principals = a.principals;
            promotions = λ k.
                insert_for org_id (resource_type.raw, id.raw) k fgrn.raw fgrn.raw (λ v. v)
                  s.promotions f.promotions refl (a.promotions k);
            org = a.org;
            org_keys = a.org_keys;
            groups = a.groups;
          })
          (λ other f n a. record {
            principals = a.principals;
            promotions = λ k.
                insert_for_other org_id other (resource_type.raw, id.raw) k fgrn.raw s.promotions n
                ∙ a.promotions k;
            org = a.org;
            org_keys = a.org_keys;
            groups = a.groups;
          })
          h

    pub tombstoned-IsFaithful :
        (fgrn : Fgrn) (resource_type : Segment) (id : NativeId) (any_org : Str)
        → IsFaithful o
            (record (recorded s stamp org_id actor (tombstoned fgrn resource_type id)) {
              promotions = remove (org_id, (resource_type.raw, id.raw)) s.promotions;
            })
            any_org
    tombstoned-IsFaithful fgrn resource_type id =
        recorded-IsFaithful s _ stamp org_id actor (tombstoned fgrn resource_type id) refl
          (λ f a. record {
            principals = a.principals;
            promotions = λ k.
                remove_for org_id (resource_type.raw, id.raw) k (λ v. v) s.promotions f.promotions
                  refl (a.promotions k);
            org = a.org;
            org_keys = a.org_keys;
            groups = a.groups;
          })
          (λ other f n a. record {
            principals = a.principals;
            promotions = λ k.
                remove_for_other org_id other (resource_type.raw, id.raw) k s.promotions n
                ∙ a.promotions k;
            org = a.org;
            org_keys = a.org_keys;
            groups = a.groups;
          })
          h

    pub org-IsFaithful :
        (kind : OrgKind) (r : OrgRecord o) (calls : Option (List (WriteThrough o))) (any_org : Str)
        → IsFaithful o
            (record (recorded s stamp org_id actor
              (org kind (o.organization_fields r.org) (config_of o r))) {
                orgs = insert org_id r s.orgs;
                org_store = calls;
              })
            any_org
    org-IsFaithful kind r calls =
        recorded-IsFaithful s _ stamp org_id actor
          (org kind (o.organization_fields r.org) (config_of o r)) refl
          (λ f a. record {
            principals = a.principals;
            promotions = a.promotions;
            org = ground (arith, lookup-insert org_id org_id r s.orgs, ==_refl org_id);
            org_keys = a.org_keys;
            groups = a.groups;
          })
          (λ other f n a. record {
            principals = a.principals;
            promotions = a.promotions;
            org = ap (org_view o) (ground (arith, lookup-insert org_id other r s.orgs)) ∙ a.org;
            org_keys = a.org_keys;
            groups = a.groups;
          })
          h

    pub keys-IsFaithful :
        (kind : KeyKind) (key_id : Str) (new_keys : Keys o) (calls : Option (List (WriteThrough o)))
        (any_org : Str)
        → IsFaithful o
            (record (recorded s stamp org_id actor (keys kind key_id (o.keys_value new_keys))) {
              signing_keys = insert org_id new_keys s.signing_keys;
              org_store = calls;
            })
            any_org
    keys-IsFaithful kind key_id new_keys calls =
        recorded-IsFaithful s _ stamp org_id actor (keys kind key_id (o.keys_value new_keys)) refl
          (λ f a. record {
            principals = a.principals;
            promotions = a.promotions;
            org = a.org;
            org_keys =
                ground (arith, lookup-insert org_id org_id new_keys s.signing_keys, ==_refl org_id);
            groups = a.groups;
          })
          (λ other f n a. record {
            principals = a.principals;
            promotions = a.promotions;
            org = a.org;
            org_keys =
                ap (keys_view o)
                  (ground (arith, lookup-insert org_id other new_keys s.signing_keys))
                ∙ a.org_keys;
            groups = a.groups;
          })
          h

    pub group_stored-IsFaithful :
        (entry : RbacEntry) (calls : Option (List (WriteThrough o))) (any_org : Str)
        → IsFaithful o
            (record (recorded s stamp org_id actor
              (group_stored entry.name (o.group_value entry))) {
                groups = insert (org_id, entry.name) entry s.groups;
                org_store = calls;
              })
            any_org
    group_stored-IsFaithful entry calls =
        recorded-IsFaithful s _ stamp org_id actor (group_stored entry.name (o.group_value entry))
          refl
          (λ f a. record {
            principals = a.principals;
            promotions = a.promotions;
            org = a.org;
            org_keys = a.org_keys;
            groups = λ k.
                insert_for org_id entry.name k entry (o.group_value entry) (group_view o) s.groups
                  f.groups refl (a.groups k);
          })
          (λ other f n a. record {
            principals = a.principals;
            promotions = a.promotions;
            org = a.org;
            org_keys = a.org_keys;
            groups = λ k.
                ap (group_view o) (insert_for_other org_id other entry.name k entry s.groups n)
                ∙ a.groups k;
          })
          h

    pub group_removed-IsFaithful :
        (name : Str) (calls : Option (List (WriteThrough o))) (any_org : Str)
        → IsFaithful o
            (record (recorded s stamp org_id actor (group_removed name)) {
              groups = remove (org_id, name) s.groups;
              org_store = calls;
            })
            any_org
    group_removed-IsFaithful name calls =
        recorded-IsFaithful s _ stamp org_id actor (group_removed name) refl
          (λ f a. record {
            principals = a.principals;
            promotions = a.promotions;
            org = a.org;
            org_keys = a.org_keys;
            groups =
                λ k. remove_for org_id name k (group_view o) s.groups f.groups refl (a.groups k);
          })
          (λ other f n a. record {
            principals = a.principals;
            promotions = a.promotions;
            org = a.org;
            org_keys = a.org_keys;
            groups = λ k.
                ap (group_view o) (remove_for_other org_id other name k s.groups n) ∙ a.groups k;
          })
          h
