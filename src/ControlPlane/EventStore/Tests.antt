-- ===== src/ControlPlane/EventStore/Tests.antt =====
-- A store after two operations: a principal of acme, and a group.
use forgeguard.Base.{
  ◌≡◌, ◌+◌, ◌<◌, ◌≤◌, refl, ℕ, Str, true, List, [], ◌∷◌, none, some, codes, ltb, take,
}
use forgeguard.Base.Assoc.{lookup, insert}
use forgeguard.Base.Result.{ok, err}
use forgeguard.Core.NativeId.{NativeId}
use forgeguard.Authz.Json.Texts.{json, null, text}
use forgeguard.Authz.Event.{system, latest_revision, push, draft_new, from_signed}
use forgeguard.Authz.Event.Fold.{FoldedState, empty_at}
use forgeguard.Authz.Event.Payload.{decide_upsert}
use forgeguard.Authz.Event.Effects.{Change, effects, Records}
use forgeguard.Authz.Rbac.{RbacEntry}
use forgeguard.ControlPlane.EventStore.{
  Outside, Stamp, applied, EventStore, new, log_of, check_expected_revision, build_model_event,
}
use forgeguard.ControlPlane.EventStore.Entities.{upsert_changed}
use forgeguard.ControlPlane.EventStore.Groups.{put_group, store_group}
use forgeguard.ControlPlane.EventStore.Folding.{fold_at}
use forgeguard.ControlPlane.EventStore.View.{Agrees}
use forgeguard.ControlPlane.EventStore.History.{IsReached, start, then, upserts, puts}
use forgeguard.ControlPlane.EventStore.Refinement.{IsReached-fold_at}

abbrev outside : Outside
outside = record {
  json = json;
  clock = record { Time = ℕ; Duration = ℕ; before = ltb; plus = λ t d. t + d };
  Config = Str;
  organization_fields = λ org. (codes "name", text org.name) ∷ [];
  config_value = text;
  keys_value = λ keys. null;
  group_value = λ entry. text entry.name;
  has_etag = λ entry. true;
  sign = λ draft org_id. [];
  rotation_grace = 24;
}

abbrev stamp : Stamp
stamp = record {
  event_id = record { raw = codes "e1" };
  occurred_at = codes "2026-01-01T00:00:00Z";
}

abbrev admins : RbacEntry
admins = record {
  name = codes "admins";
  description = none;
  inherits = [];
  allow = codes "read" ∷ [];
  tenant_scoped = true;
}

abbrev acme : Str
acme = codes "acme"

abbrev ann : NativeId
ann = record { raw = codes "ann" }

with_ann : EventStore outside
unfolding upsert_changed
with_ann = (upsert_changed outside stamp acme ann system (text (codes "doc")) (new outside)).0

with_ann-IsReached : IsReached outside with_ann
unfolding with_ann
with_ann-IsReached = then (start none) (upserts stamp acme ann system (text (codes "doc")) refl)

with_admins : EventStore outside
unfolding put_group
with_admins = elim (put_group outside stamp acme admins system (some 1) with_ann) [
  | ok (s, outcome) ↦ s
  | err e ↦ with_ann
]

with_admins-IsReached : IsReached outside with_admins
unfolding with_admins with_ann upsert_changed put_group store_group check_expected_revision
    decide_upsert build_model_event push draft_new from_signed latest_revision lookup insert
with_admins-IsReached =
    then with_ann-IsReached (puts stamp acme admins system (some 1) (applied 2) refl)

IsReached-fold_at_example :
    (changes : List (Change json)) × Records (log_of outside with_admins acme) changes
    × ((n : ℕ)
        → 0 < n
        → n ≤ latest_revision (log_of outside with_admins acme)
        → fold_at outside with_admins acme (some n)
          ≡ ok (effects (take n changes) (empty_at json n)))
    × ((f : FoldedState json) × (fold_at outside with_admins acme none ≡ ok f)
        × Agrees outside with_admins acme f)
IsReached-fold_at_example = IsReached-fold_at outside with_admins acme with_admins-IsReached
