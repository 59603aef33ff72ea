-- ===== src/Core/Action.antt =====
-- crates/core/src/action.rs: namespaces, actions and entities, and the references built from them.
-- The typed ids of crates/core/src/segment.rs (`UserId`, `TenantId`, `GroupName` and so on) are the
-- segments that they wrap, and so are `Action`, `Entity` and `ResourceId`.
mod Tests
pub mod RoundTrip
use forgeguard.Base.{
  Str, Bool, true, false, List, [], ◌∷◌, ◌++◌, Option, none, some, codes, contains, ◌==◌, ◌≡◌, ◌↔◌,
  nat_eq, list_eq, arith,
}
use forgeguard.Base.Text.{splitn}
use forgeguard.Base.Result.{ok, err, ◌>>=◌, ◌>>◌}
use forgeguard.Core.Error.{Error, CoreResult}
use forgeguard.Core.Segment
use forgeguard.Core.Segment.{Segment}

abbrev pub UserId : Type 0
UserId = Segment

abbrev pub TenantId : Type 0
TenantId = Segment

abbrev pub GroupName : Type 0
GroupName = Segment

pub data Namespace : Type 0 where
  user reserved : Segment → Namespace

abbrev pub reserved_namespaces : List Str
reserved_namespaces = codes "iam" ∷ codes "forgeguard" ∷ []

-- `Namespace::as_segment`
abbrev pub as_segment : Namespace → Segment
as_segment (user s) = s
as_segment (reserved s) = s

abbrev pub is_reserved : Namespace → Bool
is_reserved (user s) = false
is_reserved (reserved s) = true

-- The `PartialEq` of `Namespace`, which does not tell a reserved one from another of its name.
abbrev pub same_namespace : Namespace → Namespace → Bool
same_namespace a b = (as_segment a).raw == (as_segment b).raw

unfoldable pub parse_namespace : Str → CoreResult Namespace
parse_namespace s = elim (contains reserved_namespaces s) [
  | true ↦ err (
      Error.parse "namespace" s
        "reserved namespace — 'iam' and 'forgeguard' cannot be used by customers")
  | false ↦ (do segment ← Segment.try_new s; ok (user segment))
]

pub record QualifiedAction : Type 0 where
  pub namespace : Namespace
  pub action : Segment
  pub entity : Segment

parse_action_parts : Str → List Str → CoreResult QualifiedAction
parse_action_parts s (ns ∷ entity ∷ action ∷ []) = do
  namespace ← parse_namespace ns
  action' ← Segment.try_new action
  entity' ← Segment.try_new entity
  ok (record { namespace = namespace; action = action'; entity = entity' })
parse_action_parts s parts =
    err
      (Error.parse "qualified_action" s "expected namespace:entity:action (e.g., 'todo:list:read')")

-- `QualifiedAction::parse`
unfoldable pub parse_action : Str → CoreResult QualifiedAction
unfolding parse_action_parts
parse_action s = parse_action_parts s (splitn 4 b':' s)

-- Its `Display`.
unfoldable pub action_text : QualifiedAction → Str
action_text q = (as_segment q.namespace).raw ++ b':' ∷ (q.entity.raw ++ b':' ∷ q.action.raw)

unfoldable pub vp_action_id : QualifiedAction → Str
vp_action_id q = (as_segment q.namespace).raw ++ b'-' ∷ (q.entity.raw ++ b'-' ∷ q.action.raw)

pub data ResourceOrgSource : Type 0 where
  own_id request_tenant : ResourceOrgSource

pub record ResourceRef : Type 0 where
  pub namespace : Namespace
  pub entity : Segment
  pub id : Segment
  pub cedar_entity_type : Option Str
  pub org_source : ResourceOrgSource

unfoldable pub from_route : QualifiedAction → Segment → ResourceRef
from_route action id = record {
  namespace = action.namespace;
  entity = action.entity;
  id = id;
  cedar_entity_type = none;
  org_source = request_tenant;
}

unfoldable pub from_route_with_entity_type : QualifiedAction → Segment → Str → ResourceRef
from_route_with_entity_type action id cedar_entity_type = record {
  namespace = action.namespace;
  entity = action.entity;
  id = id;
  cedar_entity_type = some cedar_entity_type;
  org_source = request_tenant;
}

unfoldable pub scoped_by_own_id : ResourceRef → ResourceRef
scoped_by_own_id r = record r { org_source = own_id }

pub data PrincipalKind : Type 0 where
  user machine : PrincipalKind

pub record PrincipalRef : Type 0 where
  pub user_id : UserId
  pub kind : PrincipalKind

-- `PrincipalRef::new` and `PrincipalRef::machine`
abbrev pub user_ref : UserId → PrincipalRef
user_ref user_id = record { user_id = user_id; kind = PrincipalKind.user }

abbrev pub machine_ref : UserId → PrincipalRef
machine_ref user_id = record { user_id = user_id; kind = PrincipalKind.machine }
